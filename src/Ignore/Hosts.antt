-- ===== src/Ignore/Hosts.antt =====
-- Which hosts are ignored after an operation, and for how long.
use miau.Prelude.{
  ℕ, zero, suc, ◌-◌, ◌≡◌, refl, sym, ap, ◌∙◌, inl, inr, Bool, true, false, not, ◌&&◌, ◌||◌, Option,
  none, some, List, [], ◌∷◌, ◌++◌, Text, arith, length, get_elem?, set, ◌==◌, ==_sound, leb,
  if◌then◌else◌, Bool-cases, Option-cases,
}
use miau.Common.{same_nocase}
use miau.Common.Laws.{same_nocase_sym, same_nocase_trans}
use miau.Table.{is_null, last_null, table_add_item}
use miau.Table.Compact.{live}
use miau.Ignore.{
  IgnoreType, Ignores, ignore, is_entry, is_ignore, ignore_add, ignore_del, unless_host, tick,
  ignores_process,
}
use miau.Table.Entries.{last_null_sound}
use miau.Table.Sweep.{filter_map, sweep_all}

-- One of the entries is for the host and the type.
unfoldable pub any_entry : Text → ℕ → List IgnoreType → Bool
any_entry hostname type [] = false
any_entry hostname type (e ∷ l) = is_entry hostname type e || any_entry hostname type l

is_ignore-live :
    (ignores : Ignores) (h : Text) (t : ℕ) → is_ignore ignores h t ≡ any_entry h t (live ignores)
unfolding is_ignore any_entry live
is_ignore-live [] h t = refl
is_ignore-live (none ∷ l) h t = is_ignore-live l h t
is_ignore-live (some e ∷ l) h t = ap (λ b. is_entry h t e || b) (is_ignore-live l h t)

-- Hosts that differ only in case are told alike.
is_entry-unless :
    (e : IgnoreType) (h h' : Text) (t : ℕ)
    → (if same_nocase e.hostname h then false else is_entry h' t e)
      ≡ (not (same_nocase h h') && is_entry h' t e)
unfolding is_entry
is_entry-unless e h h' t = ground (
  arith,
  same_nocase_trans h e.hostname h',
  same_nocase_sym h e.hostname,
  same_nocase_trans e.hostname h' h,
  same_nocase_sym h h',
)

any_entry-unless :
    (l : List IgnoreType) (h h' : Text) (t : ℕ)
    → any_entry h' t (filter_map (unless_host h) l) ≡ (not (same_nocase h h') && any_entry h' t l)
unfolding any_entry filter_map
any_entry-unless [] h h' t = ground arith
any_entry-unless (e ∷ l) h h' t =
    ground (arith, is_entry-unless e h h' t, any_entry-unless l h h' t)

-- After `ignore_del` the host is not ignored, whatever the type, and nothing changes for the others.
pub is_ignore-ignore_del :
    (ignores : Ignores) (h h' : Text) (t : ℕ)
    → is_ignore (ignore_del ignores h) h' t ≡ (not (same_nocase h h') && is_ignore ignores h' t)
unfolding ignore_del
is_ignore-ignore_del ignores h h' t =
    rw
      (
        is_ignore-live (ignore_del ignores h) h' t,
        sweep_all (unless_host h) ignores,
        is_ignore-live ignores h' t,
      )
      (any_entry-unless (live ignores) h h' t)

is_ignore-append :
    (s : Ignores) (e : IgnoreType) (h : Text) (t : ℕ)
    → is_ignore (s ++ some e ∷ []) h t ≡ (is_entry h t e || is_ignore s h t)
unfolding is_ignore
is_ignore-append [] e h t = refl
is_ignore-append (none ∷ s) e h t = is_ignore-append s e h t
is_ignore-append (some d ∷ s) e h t = ground (arith, is_ignore-append s e h t)

is_ignore-set :
    (s : Ignores) (i : ℕ) (e : IgnoreType) (h : Text) (t : ℕ)
    → is_null (get_elem? s i) ≡ true
    → is_ignore (set s i (some e)) h t ≡ (is_entry h t e || is_ignore s h t)
unfolding is_ignore
is_ignore-set [] i e h t n = absurd (ground arith)
is_ignore-set (none ∷ s) zero e h t n = refl
is_ignore-set (some d ∷ s) zero e h t n = absurd (ground arith)
is_ignore-set (none ∷ s) (suc i) e h t n = is_ignore-set s i e h t n
is_ignore-set (some d ∷ s) (suc i) e h t n = ground (arith, is_ignore-set s i e h t n)

is_ignore-table_add_item :
    (s : Ignores) (e : IgnoreType) (h : Text) (t : ℕ)
    → is_ignore (table_add_item s e) h t ≡ (is_entry h t e || is_ignore s h t)
unfolding table_add_item
is_ignore-table_add_item s e h t = elim (Option-cases (last_null s (length s))) [
  | inl full ↦ rw (full, table_add_item) (is_ignore-append s e h t)
  | inr (i, hole) ↦
      rw (hole, table_add_item) (is_ignore-set s i e h t (last_null_sound s (length s) i hole))
]

-- An entry that is there already stands for every host that differs only in case.
is_ignore-nocase :
    (s : Ignores) (h h' : Text) (t : ℕ)
    → same_nocase h h' ≡ true
    → is_ignore s h t ≡ true
    → is_ignore s h' t ≡ true
unfolding is_ignore is_entry
is_ignore-nocase [] h h' t e i = absurd (ground arith)
is_ignore-nocase (none ∷ s) h h' t e i = is_ignore-nocase s h h' t e i
is_ignore-nocase (some d ∷ s) h h' t e i =
    ground (arith, is_ignore-nocase s h h' t e, same_nocase_trans d.hostname h h')

-- After `ignore_add` exactly the host added is ignored in addition, for the type given.
pub is_ignore-ignore_add :
    (ignores : Ignores) (h : Text) (ttl t : ℕ) (h' : Text) (t' : ℕ)
    → is_ignore (ignore_add ignores (some h) ttl t) h' t'
      ≡ ((same_nocase h h' && t == t') || is_ignore ignores h' t')
unfolding ignore_add
is_ignore-ignore_add ignores h ttl t h' t' = elim (Bool-cases (is_ignore ignores h t)) [
  | inl old ↦ rw old (ground (arith, is_ignore-nocase ignores h h' t, ==_sound t t'))
  | inr new ↦ rw new (is_ignore-table_add_item ignores (ignore h ttl t) h' t')
]

-- `k` calls of `ignores_process`.
unfoldable pub process_times : ℕ → Ignores → Ignores
process_times zero ignores = ignores
process_times (suc k) ignores = ignores_process (process_times k ignores)

-- An entry after `k` calls, if it is there at all.
abbrev pub aged : ℕ → IgnoreType → Option IgnoreType
aged k e = if leb k e.ttl then some (record e { ttl = e.ttl - k }) else none

filter_map-tick-aged :
    (k : ℕ) (l : List IgnoreType)
    → filter_map tick (filter_map (aged k) l) ≡ filter_map (aged (suc k)) l
unfolding filter_map
filter_map-tick-aged k [] = refl
filter_map-tick-aged k (e ∷ l) = ground (arith, filter_map-tick-aged k l)

filter_map-aged_zero : (l : List IgnoreType) → filter_map (aged 0) l ≡ l
unfolding filter_map
filter_map-aged_zero [] = refl
filter_map-aged_zero (e ∷ l) = ground (arith, filter_map-aged_zero l)

-- After `k` calls of `ignores_process` the entries left are those that had a time to live of at
-- least `k`, in the same order and each with `k` less of it.
pub live-process_times :
    (k : ℕ) (ignores : Ignores)
    → live (process_times k ignores) ≡ filter_map (aged k) (live ignores)
unfolding process_times ignores_process
live-process_times zero ignores = sym (filter_map-aged_zero (live ignores))
live-process_times (suc k) ignores =
    sweep_all tick (process_times k ignores)
    ∙ ap (filter_map tick) (live-process_times k ignores)
    ∙ filter_map-tick-aged k (live ignores)

-- ===== src/Records/Catalog/Sound.antt =====
-- What every catalog keeps, and that each call keeps it.
use txmlconnector.Common.{ℕ, ◌≤◌, ◌≡◌, refl, sym, ap, ◌∙◌, arith, Bool, true, ◌||◌, not}
use txmlconnector.Common.{
  Option, none, some, List, [], ◌∷◌, Bytes, length, if◌then◌else◌, ◌==◌, leb,
}
use txmlconnector.Common.{
  find, insert, keys, IsDistinct, keys-insert, Bool-cases, inl, inr, find-insert_self, Result, ok,
  err,
}
use mathlib.Core.Path.{subst}
use txmlconnector.Common.{appended, keys-insert-appended, find-insert_own}
use txmlconnector.Records.Securities.{SecNew, parse_sec_new}
use txmlconnector.Records.Bodies.{is_attr}
use txmlconnector.Records.Split.Parses.{trade_date as read_date}
use txmlconnector.Wire.Words.{sign_extend}
use txmlconnector.Common.{short_buffer}
use txmlconnector.Records.Catalog.{
  Catalog, same_id, add_security, drain_pending, new_flags, set_flags, head_of, apply,
  apply_mutations,
}
use txmlconnector.Records.Catalog.Keys.{same_id-IsEquality}
use txmlconnector.Records.Catalog.Calls.{Call, add, mutate, drain, call, calls}
use txmlconnector.Records.Catalog.Symbols.{
  IsCoded, IsResolved, add_symbols-IsResolved, insert-IsResolved,
}

-- The arrivals are the ids of the securities, each once, and no more of them are delivered than there are;
-- a security stands under its own id; the boards have their codes, and every symbol is resolved.
pub record IsSound (c : Catalog) : Type 0 where
  pub arrivals : keys c.secs ≡ c.order
  pub once : IsDistinct same_id c.order
  pub bounded : c.delivered ≤ length c.order
  pub own : (id : ℕ) (s : SecNew) → find same_id id c.secs ≡ some s → s.sec_id ≡ id
  pub coded : IsCoded c.boards c.codes
  pub resolved : IsResolved c.secs c.codes c.symbols

pub add_security-IsSound : (c : Catalog) (s : SecNew) → IsSound c → IsSound (add_security c s)
unfolding add_security
add_security-IsSound c s v =
    let dist : IsDistinct same_id (keys c.secs) =
      subst (IsDistinct same_id) (sym v.arrivals) v.once in
    let known = keys-insert-appended same_id same_id-IsEquality c.secs s.sec_id s dist in
    let order_eq = ap (appended s.sec_id (find same_id s.sec_id c.secs)) v.arrivals in
    record {
      arrivals = known.0 ∙ order_eq;
      once = subst (IsDistinct same_id) order_eq known.1;
      bounded =
          omega
            (arith, v.bounded, known.2, ap {B = ℕ} length order_eq, ap {B = ℕ} length v.arrivals);
      own = find-insert_own same_id same_id-IsEquality (λ t. t.sec_id) c.secs s.sec_id s refl v.own;
      coded = v.coded;
      resolved =
          add_symbols-IsResolved (insert same_id s.sec_id s c.secs) c.codes c.boards s.sec_code
            s.sec_id s.pits c.symbols v.coded
            (s, find-insert_self same_id same_id-IsEquality s.sec_id s c.secs)
            (insert-IsResolved c.secs c.codes c.symbols s.sec_id s v.resolved);
    }

-- The invariant where only the security of an id is replaced, by one of that id.
replaced-IsSound :
    (c : Catalog) (id : ℕ) (old s : SecNew)
    → find same_id id c.secs ≡ some old
    → s.sec_id ≡ id
    → IsSound c
    → IsSound (record c { secs = insert same_id id s c.secs })
replaced-IsSound c id old s e is v = record {
  arrivals = keys-insert same_id id s old c.secs e ∙ v.arrivals;
  once = v.once;
  bounded = v.bounded;
  own = find-insert_own same_id same_id-IsEquality (λ t. t.sec_id) c.secs id s is v.own;
  coded = v.coded;
  resolved = insert-IsResolved c.secs c.codes c.symbols id s v.resolved;
}

set_flags-IsSound : (c : Catalog) (tag id v : ℕ) → IsSound c → IsSound (set_flags c tag id v)
unfolding set_flags
set_flags-IsSound c tag id v sound = split (find same_id id c.secs) refl
  where
    split :
        (x : Option SecNew)
        → find same_id id c.secs ≡ x
        → IsSound (elim x [
          | none ↦ c
          | some s ↦
              if tag == 0x0d || tag == 0x0e
              then record c {
                secs = insert same_id id (record s { flags = new_flags tag v s.flags }) c.secs;
              }
              else c
        ])
    split none e = sound
    split (some s) e = elim (Bool-cases (tag == 0x0d || tag == 0x0e)) [
      | inl t ↦ rw t (
          replaced-IsSound c id s (record s { flags = new_flags tag v s.flags }) e
            (sound.own id s e) sound)
      | inr t ↦ rw t sound
    ]

apply-IsSound :
    (cp1251 : Bytes → Bytes) (c : Catalog) (tag : ℕ) (body : Bytes)
    → IsSound c
    → IsSound (apply cp1251 c tag body).1
unfolding apply
apply-IsSound cp1251 c tag body v = elim (Bool-cases (tag == 0x28)) [
  | inl e ↦ rw e (by_new (parse_sec_new cp1251 body))
  | inr e ↦
      rw e (elim (Bool-cases (tag == 0x3d)) [
        | inl f ↦ rw f (by_date (read_date body))
        | inr f ↦ rw f v
      ])
]
  where
    by_new :
        (x : Result SecNew)
        → IsSound
            (elim x as (λ _. Result Bool × Catalog) [
              | ok s ↦ (ok true, add_security c s)
              | err e ↦ (err e, c)
            ]).1
    by_new (ok s) = add_security-IsSound c s v
    by_new (err e) = v

    by_date :
        (x : Result ℕ)
        → IsSound
            (elim x as (λ _. Result Bool × Catalog) [
              | ok d ↦ (ok true, record c { trade_date = sign_extend d })
              | err e ↦ (err e, c)
            ]).1
    by_date (ok d) = record {
      arrivals = v.arrivals;
      once = v.once;
      bounded = v.bounded;
      own = v.own;
      coded = v.coded;
      resolved = v.resolved;
    }
    by_date (err e) = v

apply_mutations-IsSound :
    (cp1251 : Bytes → Bytes) (c : Catalog) (tag : ℕ) (body : Bytes)
    → IsSound c
    → IsSound (apply_mutations cp1251 c tag body).1
unfolding apply_mutations
apply_mutations-IsSound cp1251 c tag body v = elim (Bool-cases (tag == 0x28 || tag == 0x3d)) [
  | inl e ↦ rw e (apply-IsSound cp1251 c tag body v)
  | inr e ↦ rw e (elim (Bool-cases (not (is_attr tag))) [
    | inl f ↦ rw f v
    | inr f ↦ rw f (by_head (head_of body))
  ])
]
  where
    by_head :
        (x : Option (ℕ × ℕ))
        → IsSound
            (elim x as (λ _. Result Bool × Catalog) [
              | none ↦ (err short_buffer, c)
              | some (id, w) ↦ (ok true, set_flags c tag id w)
            ]).1
    by_head none = v
    by_head (some (id, w)) = set_flags-IsSound c tag id w v

drain_pending-IsSound : (c : Catalog) → IsSound c → IsSound (drain_pending c).1
unfolding drain_pending
drain_pending-IsSound c v = elim (Bool-cases (leb (length c.order) c.delivered)) [
  | inl e ↦ rw e v
  | inr e ↦ rw e (record {
    arrivals = v.arrivals;
    once = v.once;
    bounded = omega arith;
    own = v.own;
    coded = v.coded;
    resolved = v.resolved;
  })
]

pub call-IsSound :
    (cp1251 : Bytes → Bytes) (c : Catalog) (x : Call) → IsSound c → IsSound (call cp1251 c x).1
unfolding call
call-IsSound cp1251 c (add s) v = add_security-IsSound c s v
call-IsSound cp1251 c (mutate tag body) v = apply_mutations-IsSound cp1251 c tag body v
call-IsSound cp1251 c drain v = drain_pending-IsSound c v

pub calls_kept :
    (cp1251 : Bytes → Bytes) (c : Catalog) (xs : List Call)
    → IsSound c
    → IsSound (calls cp1251 c xs).1
unfolding calls
calls_kept cp1251 c [] v = v
calls_kept cp1251 c (x ∷ xs) v =
    calls_kept cp1251 (call cp1251 c x).1 xs (call-IsSound cp1251 c x v)

-- ===== src/Records/Catalog/Draining.antt =====
-- The chunks that the drains of a catalog return.
use txmlconnector.Common.{
  ℕ, zero, suc, ◌≤◌, ◌≡◌, refl, sym, ap, ◌∙◌, arith, Bool, true, ◌||◌, not, ◌==◌, leb,
}
use txmlconnector.Common.{
  Option, none, some, List, [], ◌∷◌, ◌++◌, Bytes, length, take, drop, append-nil, append_assoc,
  take-append-drop, if◌then◌else◌, Bool-cases, inl, inr, Result, ok, err, short_buffer,
}
use txmlconnector.Records.Catalog.Keys.{same_id-IsEquality}
use txmlconnector.Common.{keys-Has, appended, find, insert, Has, IsDistinct, All, All-drop}
use mathlib.Core.Path.{subst}
use txmlconnector.Wire.Words.{sign_extend}
use txmlconnector.Records.Dictionary.{Startup}
use txmlconnector.Records.Bodies.{is_attr}
use txmlconnector.Records.Split.Parses.{trade_date as read_date}
use txmlconnector.Records.Securities.{SecNew, parse_sec_new}
use txmlconnector.Records.Catalog.{
  Catalog, same_id, add_security, securities, drain_pending, set_flags, new_flags, head_of, apply,
  apply_mutations, new_catalog,
}
use txmlconnector.Records.Catalog.Calls.{Call, add, mutate, drain, call, calls}
use txmlconnector.Records.Catalog.Invariant.{
  new_catalog-IsSound, new_catalog_undelivered, calls-IsSound,
}
use txmlconnector.Records.Catalog.Sound.{IsSound, call-IsSound}

abbrev pub ids : List SecNew → List ℕ
ids [] = []
ids (s ∷ ss) = s.sec_id ∷ ids ss

-- The arrivals that are delivered.
abbrev pub delivered_ids : Catalog → List ℕ
delivered_ids c = take c.delivered c.order

take_within : (n : ℕ) (xs ys : List ℕ) → n ≤ length xs → take n (xs ++ ys) ≡ take n xs
take_within zero xs ys h = refl
take_within (suc n) [] ys h = elim h [ ]
take_within (suc n) (x ∷ xs) ys h = ap (λ zs. x ∷ zs) (take_within n xs ys (omega arith))

take_whole : (xs : List ℕ) → take (length xs) xs ≡ xs
take_whole [] = refl
take_whole (x ∷ xs) = ap (λ zs. x ∷ zs) (take_whole xs)

-- The securities of ids that the map has stand under those ids.
ids-securities :
    (secs : List (ℕ × SecNew))
    → ((id : ℕ) (s : SecNew) → find same_id id secs ≡ some s → s.sec_id ≡ id)
    → (ls : List ℕ) → All (λ j. Has same_id j secs) ls
    → ids (securities secs ls) ≡ ls
unfolding securities
ids-securities secs own [] h = refl
ids-securities secs own (id ∷ ls) ((s, e), h) =
    rw (e, securities)
      (ap (λ x. x ∷ ids (securities secs ls)) (own id s e)
        ∙ ap (λ x. id ∷ x) (ids-securities secs own ls h))

-- A new arrival stands behind those that are delivered.
delivered_ids-add_security :
    (c : Catalog) (s : SecNew) → IsSound c → delivered_ids (add_security c s) ≡ delivered_ids c
unfolding add_security
delivered_ids-add_security c s v = by_id (find same_id s.sec_id c.secs)
  where
    by_id :
        (x : Option SecNew)
        → take c.delivered (appended s.sec_id x c.order) ≡ take c.delivered c.order
    by_id (some t) = refl
    by_id none = take_within c.delivered c.order (s.sec_id ∷ []) v.bounded

delivered_ids-set_flags :
    (c : Catalog) (tag id v : ℕ) → delivered_ids (set_flags c tag id v) ≡ delivered_ids c
unfolding set_flags
delivered_ids-set_flags c tag id v = by_id (find same_id id c.secs)
  where
    by_id :
        (x : Option SecNew)
        → delivered_ids (elim x as (λ _. Catalog) [
          | none ↦ c
          | some s ↦
              if tag == 0x0d || tag == 0x0e
              then record c {
                secs = insert same_id id (record s { flags = new_flags tag v s.flags }) c.secs;
              }
              else c
        ])
          ≡ delivered_ids c
    by_id none = refl
    by_id (some s) = elim (Bool-cases (tag == 0x0d || tag == 0x0e)) [ inl e ↦ rw e | inr e ↦ rw e ]

delivered_ids-apply :
    (cp1251 : Bytes → Bytes) (c : Catalog) (tag : ℕ) (body : Bytes)
    → IsSound c
    → delivered_ids (apply cp1251 c tag body).1 ≡ delivered_ids c
unfolding apply
delivered_ids-apply cp1251 c tag body v = elim (Bool-cases (tag == 0x28)) [
  | inl e ↦ rw e (by_new (parse_sec_new cp1251 body))
  | inr e ↦
      rw e
        (elim (Bool-cases (tag == 0x3d)) [ inl f ↦ rw f (by_date (read_date body)) | inr f ↦ rw f ])
]
  where
    by_new :
        (x : Result SecNew)
        → delivered_ids
            (elim x as (λ _. Result Bool × Catalog) [
              | ok s ↦ (ok true, add_security c s)
              | err e ↦ (err e, c)
            ]).1
          ≡ delivered_ids c
    by_new (ok s) = delivered_ids-add_security c s v
    by_new (err e) = refl

    by_date :
        (x : Result ℕ)
        → delivered_ids
            (elim x as (λ _. Result Bool × Catalog) [
              | ok d ↦ (ok true, record c { trade_date = sign_extend d })
              | err e ↦ (err e, c)
            ]).1
          ≡ delivered_ids c
    by_date (ok d) = refl
    by_date (err e) = refl

delivered_ids-mutate :
    (cp1251 : Bytes → Bytes) (c : Catalog) (tag : ℕ) (body : Bytes)
    → IsSound c
    → delivered_ids (apply_mutations cp1251 c tag body).1 ≡ delivered_ids c
unfolding apply_mutations
delivered_ids-mutate cp1251 c tag body v = elim (Bool-cases (tag == 0x28 || tag == 0x3d)) [
  | inl e ↦ rw e (delivered_ids-apply cp1251 c tag body v)
  | inr e ↦ rw e (elim (Bool-cases (not (is_attr tag))) [
    | inl f ↦ rw f
    | inr f ↦ rw f (by_head (head_of body))
  ])
]
  where
    by_head :
        (x : Option (ℕ × ℕ))
        → delivered_ids
            (elim x as (λ _. Result Bool × Catalog) [
              | none ↦ (err short_buffer, c)
              | some (id, w) ↦ (ok true, set_flags c tag id w)
            ]).1
          ≡ delivered_ids c
    by_head none = refl
    by_head (some (id, w)) = delivered_ids-set_flags c tag id w

-- With what a drain returns all the arrivals are delivered.
drained :
    (c : Catalog)
    → IsSound c
    → (delivered_ids c ++ ids (drain_pending c).0 ≡ c.order)
      × (delivered_ids (drain_pending c).1 ≡ c.order)
unfolding drain_pending
drained c v = elim (Bool-cases (leb (length c.order) c.delivered)) [
  | inl e ↦
      let all : c.delivered ≡ length c.order = ground (arith, v.bounded) in
      let whole = ap (λ (n : ℕ). take n c.order) all ∙ take_whole c.order in
      rw e (append-nil (delivered_ids c) ∙ whole, whole)
  | inr e ↦ rw e (
    ap (λ x. delivered_ids c ++ x)
          (ids-securities c.secs v.own (drop c.delivered c.order) (
            All-drop (λ j. Has same_id j c.secs) c.delivered c.order
              (subst (All (λ j. Has same_id j c.secs)) v.arrivals
                (keys-Has same_id same_id-IsEquality c.secs))))
        ∙ take-append-drop c.delivered c.order,
    take_whole c.order,
  )
]

chunk_of :
    (cp1251 : Bytes → Bytes) (c : Catalog) (x : Call)
    → IsSound c
    → delivered_ids c ++ ids (call cp1251 c x).0 ≡ delivered_ids (call cp1251 c x).1
unfolding call
chunk_of cp1251 c (add s) v = append-nil (delivered_ids c) ∙ sym (delivered_ids-add_security c s v)
chunk_of cp1251 c (mutate tag body) v =
    append-nil (delivered_ids c) ∙ sym (delivered_ids-mutate cp1251 c tag body v)
chunk_of cp1251 c drain v = (drained c v).0 ∙ sym (drained c v).1

ids-append : (xs ys : List SecNew) → ids (xs ++ ys) ≡ ids xs ++ ids ys
ids-append [] ys = refl
ids-append (x ∷ xs) ys = ap (λ zs. x.sec_id ∷ zs) (ids-append xs ys)

chunks_of :
    (cp1251 : Bytes → Bytes) (c : Catalog) (xs : List Call)
    → IsSound c
    → delivered_ids c ++ ids (calls cp1251 c xs).0 ≡ delivered_ids (calls cp1251 c xs).1
unfolding calls
chunks_of cp1251 c [] v = append-nil (delivered_ids c)
chunks_of cp1251 c (x ∷ xs) v =
    let c' = (call cp1251 c x).1 in
    let chunk = (call cp1251 c x).0 in
    let chunks = (calls cp1251 c' xs).0 in
    ap (λ y. delivered_ids c ++ y) (ids-append chunk chunks)
    ∙ sym (append_assoc (delivered_ids c) (ids chunk) (ids chunks))
    ∙ ap (λ y. y ++ ids chunks) (chunk_of cp1251 c x v)
    ∙ chunks_of cp1251 c' xs (call-IsSound cp1251 c x v)

-- After any calls on a new catalog, the ids of all drained securities, in the order in which the drains
-- returned them, are the delivered part of the arrivals; and with one more drain they are all the
-- arrivals. No id arrives twice.
pub calls_drained :
    (cp1251 : Bytes → Bytes) (st : Startup) (xs : List Call)
    → let (out, c) = calls cp1251 (new_catalog st) xs in
      (ids out ≡ take c.delivered c.order)
      × (ids out ++ ids (drain_pending c).0 ≡ c.order)
      × IsDistinct same_id c.order
calls_drained cp1251 st xs =
    let (out, c) = calls cp1251 (new_catalog st) xs in
    let v = calls-IsSound cp1251 st xs in
    let none_out = ap (λ (n : ℕ). take n (new_catalog st).order) (new_catalog_undelivered st) in
    let parts : ids out ≡ take c.delivered c.order =
      ap (λ x. x ++ ids out) (sym none_out)
      ∙ chunks_of cp1251 (new_catalog st) xs (new_catalog-IsSound st) in
    (parts, ap (λ x. x ++ ids (drain_pending c).0) parts ∙ (drained c v).0, v.once)

-- ===== src/Records/Split/Stable.antt =====
-- The body of a record is the same whatever follows it and wherever the record stands.
use txmlconnector.Common.{
  ℕ, zero, suc, ◌+◌, ◌-◌, ◌≤◌, ◌≡◌, refl, sym, ap, ◌∙◌, arith, Bool, true, false, Option, none,
  some, [], ◌∷◌, ◌++◌, Bytes,
}
use txmlconnector.Common.{
  ◌⊎◌, Bool-cases, inl, inr, length, take, drop, length-append, ltb, ◌==◌, if◌then◌else◌, Error,
  Result, ok, err, append_assoc, unknown_layout,
}
use txmlconnector.Wire.Words.{is_negative32}
use txmlconnector.Wire.Reader.{Read, skip}
use txmlconnector.Records.Parser.{Parser, ◌>>=◌, ◌>>◌, fail}
use txmlconnector.Records.Parser.Local.{Local, bind_cases, bind_again}
use txmlconnector.Records.Split.Ends.{Ends}
use txmlconnector.Records.Split.Decodes.{cut_cases}
use txmlconnector.Records.Bodies.{
  cut, skip_urt, block, skip_package, skip_bytes, news_body_package_len,
}

take-prefix : (n : ℕ) (xs ys : Bytes) → n ≤ length xs → take n (xs ++ ys) ≡ take n xs
take-prefix zero xs ys h = refl
take-prefix (suc n) [] ys h = absurd (omega arith)
take-prefix (suc n) (x ∷ xs) ys h = ap (◌∷◌ x) (take-prefix n xs ys (omega arith))

drop-prefix : (n : ℕ) (xs ys : Bytes) → n ≤ length xs → drop n (xs ++ ys) ≡ drop n xs ++ ys
drop-prefix zero xs ys h = refl
drop-prefix (suc n) [] ys h = absurd (omega arith)
drop-prefix (suc n) (x ∷ xs) ys h = drop-prefix n xs ys (omega arith)

pub behind :
    {A : Type 0} {a b : A} {s r' : Bytes} (more : Bytes)
    → ◌≡◌ {A = Read A} (ok (a, s)) (ok (b, r'))
    → ◌≡◌ {A = Read A} (ok (a, s ++ more)) (ok (b, r' ++ more))
behind more h = cc

-- A length that was not too short is not with more behind it.
still_fits :
    (n : ℕ) (r more : Bytes)
    → ltb (length r) n ≡ false
    → (n ≤ length r) × (ltb (length (r ++ more)) n ≡ false)
still_fits n r more h = (ground arith, grind (arith, length-append r more))

-- Where `p` ends, `q` ends with the same value, and what is put behind stays behind.
pub record Stable {A : Type 0} (p q : Parser A) : Type 0 where
  pub stays :
      (r : Bytes) (a : A) (r' more : Bytes) → p r ≡ ok (a, r') → q (r ++ more) ≡ ok (a, r' ++ more)

pub Local-Stable : {A : Type 0} {p : Parser A} → Local p → Stable p p
Local-Stable {p} l = record {
  stays = λ r a r' more h.
      let t = l.took r a r' h in
      ap (λ x. p (x ++ more)) t.whole ∙ ap p (append_assoc t.used r' more) ∙ t.again (r' ++ more);
}

pub bind-Stable :
    {A B : Type 0} (m m' : Parser A) (next next' : A → Parser B)
    → Stable m m'
    → ((a : A) → Stable (next a) (next' a))
    → Stable (m >>= next) (m' >>= next')
bind-Stable m m' next next' l k = record {
  stays = λ r b r'' more h.
      let (a, r', e, f) = bind_cases m next r h in
      bind_again m' next' (l.stays r a r' more e) ∙ (k a).stays r' b r'' more f;
}

pub then-Stable :
    {A B : Type 0} (m m' : Parser A) (next next' : Parser B)
    → Stable m m'
    → Stable next next'
    → Stable (m >> next) (m' >> next')
unfolding ◌>>◌
then-Stable m m' next next' l k = bind-Stable m m' (λ _. next) (λ _. next') l (λ _. k)

pub if-Stable :
    {A : Type 0} {p p' q q' : Parser A} (b : Bool)
    → Stable p p'
    → Stable q q'
    → Stable (if b then p else q) (if b then p' else q')
if-Stable true l k = l
if-Stable false l k = k

pub fail-Stable : {A : Type 0} (e e' : Error) → Stable (fail {A = A} e) (fail e')
unfolding fail
fail-Stable e e' = record { stays = λ r a r' more h. cc }

pub cut-Stable : {A : Type 0} (p q : Parser A) → Ends p → Stable p q → Stable (cut p) (cut q)
unfolding cut
cut-Stable p q l k = record {
  stays = λ r body r' more h.
      let (a, e, eb) = cut_cases p r h in
      rw (k.stays r a r' more e, cut)
        (ap (λ n. ok (take n (r ++ more), r' ++ more))
            (omega (arith, length-append r more, length-append r' more))
          ∙ ap (λ b. ok (b, r' ++ more))
              (take-prefix (length r - length r') r more (omega arith) ∙ sym eb));
}

pub block-Stable : (e : Error) (size : ℕ) → Stable (block e size) (block e size)
unfolding block
block-Stable e size = record {
  stays = λ r a r' more h. by_sign r a r' more (Bool-cases (is_negative32 size)) h;
}
  where
    by_sign :
        (r : Bytes) (a : Unit {0}) (r' more : Bytes)
        → (is_negative32 size ≡ true) ⊎ (is_negative32 size ≡ false)
        → block e size r ≡ ok (a, r')
        → block e size (r ++ more) ≡ ok (a, r' ++ more)
    by_sign r a r' more (inl f) h = cc (rw (f, block) at h)
    by_sign r a r' more (inr f) h = elim (Bool-cases (ltb (length r) size)) [
      | inl g ↦ cc (rw (f, g, block) at h)
      | inr g ↦
          let (le, g') = still_fits size r more g in
          rw (f, g')
            (ap (λ x. ok (tt, x)) (drop-prefix size r more le)
              ∙ behind more (rw (f, g, block) at h))
    ]

pub skip_urt-Stable : (o o' : ℕ) → Stable (skip_urt o) (skip_urt o')
unfolding skip_urt
skip_urt-Stable o o' = record { stays = urt }
  where
    urt :
        (r : Bytes) (a : Unit {0}) (r' more : Bytes)
        → skip_urt o r ≡ ok (a, r')
        → skip_urt o' (r ++ more) ≡ ok (a, r' ++ more)
    urt [] a r' more h = cc
    urt (b ∷ r) a r' more h = elim (Bool-cases (b == 0xff)) [
      | inl e ↦ rw e (behind more (rw (e, skip_urt) at h))
      | inr e ↦ rw e (urt r a r' more (rw (e, skip_urt) at h))
    ]

skip_bytes-Stable : (n : ℕ) → Stable (skip_bytes n) (skip_bytes n)
unfolding skip_bytes skip
skip_bytes-Stable n = record {
  stays = λ r a r' more h. elim (Bool-cases (ltb (length r) n)) [
    | inl g ↦ cc (rw (g, skip_bytes) at h)
    | inr g ↦
        let (le, g') = still_fits n r more g in
        rw (g', skip_bytes)
          (ap (λ x. ok (tt, x)) (drop-prefix n r more le) ∙ behind more (rw (g, skip_bytes) at h))
  ];
}

-- A zlib stream ends by itself: what stands behind it does not change how long it is.
abbrev pub Delimits : (Bytes → Option ℕ) → Type 0
Delimits inflate = (xs ys : Bytes) (n : ℕ) → inflate xs ≡ some n → inflate (xs ++ ys) ≡ some n

package_len_stays :
    (inflate : Bytes → Option ℕ)
    → Delimits inflate
    → (r more : Bytes) (n : ℕ) → news_body_package_len inflate r ≡ ok n
    → news_body_package_len inflate (r ++ more) ≡ ok n
unfolding news_body_package_len
package_len_stays inflate d r more n h = elim (Bool-cases (ltb (length r) 8)) [
  | inl g ↦ cc (rw (g, news_body_package_len) at h)
  | inr g ↦
      let (le, g') = still_fits 8 r more g in
      rw (g', drop-prefix 4 r more (omega arith))
        (found (inflate (drop 4 r)) refl (rw (g, news_body_package_len) at h))
]
  where
    found :
        (x : Option ℕ)
        → inflate (drop 4 r) ≡ x
        → ◌≡◌ {A = Result ℕ} (elim x [ some k ↦ ok (4 + k) | none ↦ err unknown_layout ]) (ok n)
        → ◌≡◌ {A = Result ℕ}
            (elim (inflate (drop 4 r ++ more)) [ some k ↦ ok (4 + k) | none ↦ err unknown_layout ])
            (ok n)
    found none e q = cc
    found (some k) e q = rw (d (drop 4 r) more k e) q

pub skip_package-Stable :
    (inflate : Bytes → Option ℕ)
    → Delimits inflate
    → Stable (skip_package inflate) (skip_package inflate)
unfolding skip_package
skip_package-Stable inflate d = record {
  stays = λ r. at_len r (news_body_package_len inflate r) refl;
}
  where
    at_len :
        (r : Bytes) (x : Result ℕ)
        → news_body_package_len inflate r ≡ x
        → (a : Unit {0}) (r' more : Bytes) → skip_package inflate r ≡ ok (a, r')
        → skip_package inflate (r ++ more) ≡ ok (a, r' ++ more)
    at_len r (ok n) e a r' more h =
        rw (package_len_stays inflate d r more n e, skip_package)
          ((skip_bytes-Stable n).stays r a r' more (rw (e, skip_package) at h))
    at_len r (err f) e a r' more h = cc (rw (e, skip_package) at h)

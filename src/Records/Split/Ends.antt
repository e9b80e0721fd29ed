-- ===== src/Records/Split/Ends.antt =====
-- The reader of any body ends and does not give bytes back, so the fuel of the splitter is enough.
use txmlconnector.Common.{
  ℕ, ◌+◌, ◌≤◌, ◌≡◌, ◌≢◌, refl, arith, Bool, true, false, Option, none, some, [], ◌∷◌, Bytes,
}
use txmlconnector.Common.{
  Bool-cases, inl, inr, ◌∙◌, length, drop, length-drop, ltb, ◌==◌, if◌then◌else◌, Error, Result, ok,
  err, stuck, unknown_record, unknown_layout,
}
use txmlconnector.Wire.Reader.{Read, skip}
use txmlconnector.Records.Parser.{Parser, ◌>>=◌, ◌>>◌, pure, fail}
use txmlconnector.Records.Parser.Local.{Local, bind_cases, bind_steady}
use txmlconnector.Records.Parser.Loop.{keeps}
use txmlconnector.Records.Split.Decodes.{cut_cases}
use txmlconnector.Records.Bodies.{
  cut, skip_bytes, more_byte, skip_urt, block, news_body_package_len, skip_package,
}

pub record Ends {A : Type 0} (p : Parser A) : Type 0 where
  pub shorter : (r : Bytes) (a : A) (r' : Bytes) → p r ≡ ok (a, r') → length r' ≤ length r
  pub unstuck : (r : Bytes) → p r ≢ err stuck

pub Local-Ends : {A : Type 0} {p : Parser A} → Local p → Ends p
Local-Ends l = record { shorter = λ r a r' h. keeps l h; unstuck = l.steady }

pub bind-Ends :
    {A B : Type 0} {m : Parser A} {next : A → Parser B}
    → Ends m
    → ((a : A) → Ends (next a))
    → Ends (m >>= next)
bind-Ends {m} {next} l k = record {
  shorter = λ r b r'' h.
      let (a, r', e, f) = bind_cases m next r h in
      omega (arith, l.shorter r a r' e, (k a).shorter r' b r'' f);
  unstuck = λ r. bind_steady m next r (l.unstuck r) (λ a r' e. (k a).unstuck r');
}

pub then-Ends :
    {A B : Type 0} {m : Parser A} {next : Parser B} → Ends m → Ends next → Ends (m >> next)
unfolding ◌>>◌
then-Ends l k = bind-Ends l (λ _. k)

pub if-Ends : {A : Type 0} {p q : Parser A} (b : Bool) → Ends p → Ends q → Ends (if b then p else q)
if-Ends true l k = l
if-Ends false l k = k

pub fail-Ends : {A : Type 0} (tag offset : ℕ) → Ends (fail {A = A} (unknown_record tag offset))
unfolding fail
fail-Ends tag offset = record { shorter = λ r a r' h. cc; unstuck = λ r h. cc }

pub pure-Ends : {A : Type 0} (a : A) → Ends (pure a)
unfolding pure
pure-Ends a = record { shorter = λ r b r' h. ground arith; unstuck = λ r h. cc }

pub cut-Ends : {A : Type 0} {p : Parser A} → Ends p → Ends (cut p)
unfolding cut
cut-Ends {A} {p} l = record {
  shorter = λ r body r' h. let (a, e, _) = cut_cases p r h in l.shorter r a r' e;
  unstuck = λ r. onward r (p r) refl;
}
  where
    onward : (r : Bytes) (x : Read A) → p r ≡ x → cut p r ≢ err stuck
    onward r (ok (a, s)) e h = cc (rw (e, cut) at h)
    onward r (err f) e h = l.unstuck r (e ∙ same (rw (e, cut) at h))
      where
        same : ◌≡◌ {A = Read Bytes} (err f) (err stuck) → ◌≡◌ {A = Read A} (err f) (err stuck)
        same q = cc

pub more_byte-Ends : (bounded : Bool) → Ends (more_byte bounded)
unfolding more_byte
more_byte-Ends bounded = record { shorter = more_shorter bounded; unstuck = more_unstuck bounded }
  where
    more_shorter :
        (b : Bool) (r : Bytes) (a : Unit {0}) (r' : Bytes)
        → more_byte b r ≡ ok (a, r')
        → length r' ≤ length r
    more_shorter b [] a r' h = ground arith
    more_shorter true (x ∷ r) a r' h = ground arith
    more_shorter false (x ∷ r) a r' h = ground arith

    more_unstuck : (b : Bool) (r : Bytes) → more_byte b r ≢ err stuck
    more_unstuck b [] h = cc
    more_unstuck true (x ∷ r) h = cc
    more_unstuck false (x ∷ r) h = cc

pub skip_urt-Ends : (offset : ℕ) → Ends (skip_urt offset)
unfolding skip_urt
skip_urt-Ends offset = record { shorter = urt_shorter; unstuck = urt_unstuck }
  where
    urt_shorter :
        (r : Bytes) (a : Unit {0}) (r' : Bytes)
        → skip_urt offset r ≡ ok (a, r')
        → length r' ≤ length r
    urt_shorter [] a r' h = cc
    urt_shorter (b ∷ r) a r' h = elim (Bool-cases (b == 0xff)) [
      | inl e ↦ let h' = rw e at h in ground arith
      | inr e ↦ let below = urt_shorter r a r' (rw e at h) in omega arith
    ]

    urt_unstuck : (r : Bytes) → skip_urt offset r ≢ err stuck
    urt_unstuck [] h = cc
    urt_unstuck (b ∷ r) h = elim (Bool-cases (b == 0xff)) [
      | inl e ↦ cc (rw e at h)
      | inr e ↦ urt_unstuck r (rw e at h)
    ]

pub block-Ends : (e : Error) (size : ℕ) → e ≢ stuck → Ends (block e size)
unfolding block
block-Ends e size n = record {
  shorter = λ r a r' h. grind (arith, length-drop size r);
  unstuck = λ r h. grind arith;
}

pub skip_bytes-Ends : (n : ℕ) → Ends (skip_bytes n)
unfolding skip_bytes skip
skip_bytes-Ends n = record {
  shorter = λ r a r' h. elim (Bool-cases (ltb (length r) n)) [
    | inl e ↦ cc (rw (e, skip_bytes) at h)
    | inr e ↦ let h' = rw (e, skip_bytes) at h in grind (arith, length-drop n r)
  ];
  unstuck = λ r h. elim (Bool-cases (ltb (length r) n)) [
    | inl e ↦ cc (rw (e, skip_bytes) at h)
    | inr e ↦ cc (rw (e, skip_bytes) at h)
  ];
}

package_len_steady :
    (inflate : Bytes → Option ℕ) (r : Bytes) → news_body_package_len inflate r ≢ err stuck
unfolding news_body_package_len
package_len_steady inflate r h = elim (Bool-cases (ltb (length r) 8)) [
  | inl e ↦ cc (rw e at h)
  | inr e ↦ found (inflate (drop 4 r)) (rw e at h)
]
  where
    found :
        (x : Option ℕ)
        → ◌≢◌ {A = Result ℕ}
            (elim x [ some n ↦ ok (4 + n) | none ↦ err unknown_layout ])
            (err stuck)
    found none q = cc
    found (some n) q = cc

pub skip_package-Ends : (inflate : Bytes → Option ℕ) → Ends (skip_package inflate)
unfolding skip_package
skip_package-Ends inflate = record {
  shorter = λ r. shorter_at r (news_body_package_len inflate r) refl;
  unstuck = λ r. unstuck_at r (news_body_package_len inflate r) refl;
}
  where
    shorter_at :
        (r : Bytes) (x : Result ℕ)
        → news_body_package_len inflate r ≡ x
        → (a : Unit {0}) (r' : Bytes) → skip_package inflate r ≡ ok (a, r')
        → length r' ≤ length r
    shorter_at r (ok n) e a r' h = (skip_bytes-Ends n).shorter r a r' (rw (e, skip_package) at h)
    shorter_at r (err f) e a r' h = cc (rw (e, skip_package) at h)

    unstuck_at :
        (r : Bytes) (x : Result ℕ)
        → news_body_package_len inflate r ≡ x
        → skip_package inflate r ≢ err stuck
    unstuck_at r (ok n) e h = (skip_bytes-Ends n).unstuck r (rw (e, skip_package) at h)
    unstuck_at r (err f) e h = package_len_steady inflate r (e ∙ same (rw (e, skip_package) at h))
      where
        same :
            ◌≡◌ {A = Read (Unit {0})} (err f) (err stuck) → ◌≡◌ {A = Result ℕ} (err f) (err stuck)
        same q = cc

-- ===== src/Records/Parser/Local.antt =====
-- A reader that ends, takes some bytes off the front, returns the same whatever stands behind those bytes,
-- and leaves that alone.
use txmlconnector.Common.{◌≡◌, ◌≢◌, refl, sym, ap, ◌∙◌, arith}
use txmlconnector.Common.{Bool, true, false, [], ◌++◌, append_assoc}
use txmlconnector.Common.{Bytes}
use txmlconnector.Common.{if◌then◌else◌, Error, ok, err, stuck, bad_value}
use txmlconnector.Wire.Reader.{Read}
use txmlconnector.Records.Parser.{Parser, ◌>>=◌, ◌>>◌, pure, fail}

-- `p` took the bytes `used` for the value `a`.
pub record Took {A : Type 0} (p : Parser A) (a : A) (r r' : Bytes) : Type 0 where
  pub used : Bytes
  pub whole : r ≡ used ++ r'
  pub again : (more : Bytes) → p (used ++ more) ≡ ok (a, more)

pub record Local {A : Type 0} (p : Parser A) : Type 0 where
  pub took : (r : Bytes) (a : A) (r' : Bytes) → p r ≡ ok (a, r') → Took p a r r'
  pub steady : (r : Bytes) → p r ≢ err stuck

pub bind_cases :
    {A B : Type 0} (m : Parser A) (next : A → Parser B) (r : Bytes) {b : B} {r'' : Bytes}
    → (m >>= next) r ≡ ok (b, r'')
    → (a : A) × (r' : Bytes) × (m r ≡ ok (a, r')) × (next a r' ≡ ok (b, r''))
unfolding ◌>>=◌
bind_cases {A} {B} m next r {b} {r''} h = split (m r) refl
  where
    split :
        (x : Read A)
        → m r ≡ x
        → (a : A) × (r' : Bytes) × (m r ≡ ok (a, r')) × (next a r' ≡ ok (b, r''))
    split (ok (a, r')) e = (a, r', e, rw (e, ◌>>=◌) at h)
    split (err x) e = cc (rw (e, ◌>>=◌) at h)

pub bind_again :
    {A B : Type 0} (m : Parser A) (next : A → Parser B) {a : A} {r r' : Bytes}
    → m r ≡ ok (a, r')
    → (m >>= next) r ≡ next a r'
unfolding ◌>>=◌
bind_again m next e = rw (e, ◌>>=◌)

pub Took-bind :
    {A B : Type 0} {m : Parser A} (next : A → Parser B) {a : A} {b : B} {r r' r'' : Bytes}
    → Took m a r r'
    → Took (next a) b r' r''
    → Took (m >>= next) b r r''
Took-bind {m} next {a} {b} {r} {r'} {r''} t u = record {
  used = t.used ++ u.used;
  whole = t.whole ∙ ap (λ (x : Bytes). t.used ++ x) u.whole ∙ sym (append_assoc t.used u.used r'');
  again = λ more.
      ap (m >>= next) (append_assoc t.used u.used more)
      ∙ bind_again m next (t.again (u.used ++ more))
      ∙ u.again more;
}

pub bind_steady :
    {A B : Type 0} (m : Parser A) (next : A → Parser B) (r : Bytes)
    → m r ≢ err stuck
    → ((a : A) (r' : Bytes) → m r ≡ ok (a, r') → next a r' ≢ err stuck)
    → (m >>= next) r ≢ err stuck
unfolding ◌>>=◌
bind_steady {A} {B} m next r hm hn = split (m r) refl
  where
    split : (x : Read A) → m r ≡ x → (m >>= next) r ≢ err stuck
    split (ok (a, r')) e = rw (e, ◌>>=◌) (hn a r' e)
    split (err x) e = rw (e, ◌>>=◌) (λ h. hm (e ∙ differ h))
      where
        differ : ◌≡◌ {A = Read B} (err x) (err stuck) → ◌≡◌ {A = Read A} (err x) (err stuck)
        differ h = cc

pub bind-Local :
    {A B : Type 0} {m : Parser A} {next : A → Parser B}
    → Local m
    → ((a : A) → Local (next a))
    → Local (m >>= next)
bind-Local {A} {B} {m} {next} l k = record {
  took = λ r b r'' h.
      let (a, r', e, f) = bind_cases m next r h in
      Took-bind next (l.took r a r' e) ((k a).took r' b r'' f);
  steady = λ r. bind_steady m next r (l.steady r) (λ a r' e. (k a).steady r');
}

pub then-Local :
    {A B : Type 0} {m : Parser A} {next : Parser B} → Local m → Local next → Local (m >> next)
unfolding ◌>>◌
then-Local l k = bind-Local l (λ _. k)

pub pure-Local : {A : Type 0} (a : A) → Local (pure a)
unfolding pure
pure-Local a = record {
  took = λ r b r' h. record { used = []; whole = ground arith; again = λ more. ground arith };
  steady = λ r h. cc;
}

pub fail-Local : {A : Type 0} (e : Error) → e ≢ stuck → Local (fail {A = A} e)
unfolding fail
fail-Local e n = record { took = λ r b r' h. cc; steady = λ r h. n (ground arith) }

pub fail-bad_value-Local : {A : Type 0} → Local (fail {A = A} bad_value)
fail-bad_value-Local = fail-Local bad_value (λ h. cc)

pub if-Local :
    {A : Type 0} {p q : Parser A} (b : Bool) → Local p → Local q → Local (if b then p else q)
if-Local true l k = l
if-Local false l k = k

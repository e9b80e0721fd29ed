-- ===== src/Records/Parser/Follows.antt =====
-- A skipping reader and one that keeps the values: where the first ends, so does the second.
use txmlconnector.Common.{
  ℕ, zero, suc, ◌≡◌, ◌∙◌, arith, if◌then◌else◌, Bool, true, false, Option, none, some, List, [],
  ◌∷◌, Bytes, length,
}
use txmlconnector.Common.{ok, Error, stuck}
use txmlconnector.Records.Parser.{Parser, ◌>>=◌, ◌>>◌, pure, fail, read_until, read_all}
use txmlconnector.Records.Parser.Local.{bind_cases, bind_again}
use txmlconnector.Records.Parser.Loop.{onward}
use mathlib.Core.Path.{subst}

-- Where `p` ends with `a`, `q` ends in front of the same bytes with a value that agrees with it.
pub record Follows {A B : Type 0} (agree : A → B → Type 0) (p : Parser A) (q : Parser B)
    : Type 0 where
  pub follow :
      (r : Bytes) (a : A) (r' : Bytes) → p r ≡ ok (a, r') → (b : B) × agree a b × (q r ≡ ok (b, r'))

-- Any two values agree.
abbrev pub Any : {A B : Type 0} → A → B → Type 0
Any a b = Unit {0}

-- The two values agree on whether the loop goes on.
abbrev pub Both : {A B : Type 0} → Option A → Option B → Type 0
Both none none = Unit {0}
Both none (some b) = ⊥
Both (some a) none = ⊥
Both (some a) (some b) = Unit {0}

pub bind-Follows :
    {A B C : Type 0} {agree : B → C → Type 0} (m : Parser A) (next : A → Parser B)
    (next' : A → Parser C)
    → ((a : A) → Follows agree (next a) (next' a))
    → Follows agree (m >>= next) (m >>= next')
bind-Follows m next next' k = record {
  follow = λ r b r'' h.
      let (a, r', e, f) = bind_cases m next r h in
      let (c, agreed, g) = (k a).follow r' b r'' f in (c, agreed, bind_again m next' e ∙ g);
}

pub then-Follows :
    {A B C : Type 0} {agree : B → C → Type 0} (m : Parser A) (next : Parser B)
    (next' : A → Parser C)
    → ((a : A) → Follows agree next (next' a))
    → Follows agree (m >> next) (m >>= next')
unfolding ◌>>◌
then-Follows m next next' k = bind-Follows m (λ _. next) next' k

pub pure-Follows :
    {A B : Type 0} {agree : A → B → Type 0} (a : A) (b : B)
    → agree a b
    → Follows agree (pure a) (pure b)
unfolding pure
pure-Follows {agree} a b g = record {
  follow = λ r a' r' h. (b, subst (λ x. agree x b) (ground arith) g, ground arith);
}

pub fail-Follows :
    {A B : Type 0} {agree : A → B → Type 0} (e : Error) (q : Parser B)
    → Follows agree (fail {A = A} e) q
unfolding fail
fail-Follows e q = record { follow = λ r a r' h. cc }

pub if-Follows :
    {A B : Type 0} {agree : A → B → Type 0} {p p' : Parser A} {q q' : Parser B} (t : Bool)
    → Follows agree p q
    → Follows agree p' q'
    → Follows agree (if t then p else p') (if t then q else q')
if-Follows true k k' = k
if-Follows false k k' = k'

onward-Follows :
    {A B : Type 0} {rest : Parser (List A)} {rest' : Parser (List B)} (x : Option A) (y : Option B)
    → Both x y
    → Follows Any rest rest'
    → Follows Any (onward rest x) (onward rest' y)
onward-Follows none none t k = pure-Follows [] [] tt
onward-Follows none (some b) t k = absurd t
onward-Follows (some a) none t k = absurd t
onward-Follows {rest} {rest'} (some a) (some b) t k = record {
  follow = λ r all r' h.
      let (items, s, e, f) = bind_cases rest (λ items. pure (a ∷ items)) r h in
      let (items', _, g) = k.follow r items s e in
      let (all', _, g') =
        (pure-Follows {agree = Any} (a ∷ items) (b ∷ items') tt).follow s all r' f in
      (all', tt, bind_again rest' (λ items. pure (b ∷ items)) g ∙ g');
}

until-Follows :
    {A B : Type 0} {item : Parser (Option A)} {item' : Parser (Option B)} (f : ℕ)
    → Follows Both item item'
    → Follows Any (read_until f item) (read_until f item')
unfolding read_until
until-Follows {item'} zero k = fail-Follows stuck (read_until zero item')
until-Follows {item} {item'} (suc f) k = record {
  follow = λ r all r'' h.
      let (x, r', e, g) = bind_cases item (onward (read_until f item)) r h in
      let (y, agreed, e') = k.follow r x r' e in
      let (all', _, g') = (onward-Follows x y agreed (until-Follows f k)).follow r' all r'' g in
      (all', tt, bind_again item' (onward (read_until f item')) e' ∙ g');
}

pub read_all-Follows :
    {A B : Type 0} {item : Parser (Option A)} {item' : Parser (Option B)}
    → Follows Both item item'
    → Follows Any (read_all item) (read_all item')
unfolding read_all
read_all-Follows k = record { follow = λ r. (until-Follows (suc (length r)) k).follow r }

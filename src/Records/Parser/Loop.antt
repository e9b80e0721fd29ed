-- ===== src/Records/Parser/Loop.antt =====
-- A loop over items that each take a byte at least is local: its fuel is enough on every input.
use txmlconnector.Common.{ℕ, zero, suc, ◌≤◌, ◌<◌, ◌≡◌, ◌≢◌, sym, ap, ◌∙◌, arith}
use txmlconnector.Common.{Bool, true, false, Option, none, some, List, [], ◌∷◌, ◌++◌}
use txmlconnector.Common.{Bytes, length, length-append}
use txmlconnector.Common.{◌==◌, ok, err, stuck}
use txmlconnector.Wire.Reader.{byte, uint16, packed, int32, int64, extra_bytes, packed_word}
use txmlconnector.Records.Parser.{Parser, ◌>>=◌, pure, fail, read_until, read_all, read_cstring}
use mathlib.Core.Path.{subst, fun_ext}
use txmlconnector.Records.Parser.Local.{
  Took, Local, bind_cases, bind_again, bind_steady, Took-bind, bind-Local, pure-Local, if-Local,
}
use txmlconnector.Records.Parser.Basic.{
  local_rules, packed_lem, int32_lem, narrowed, raw-Local, byte-Local, uint16-Local, int32-Local,
  int64-Local, read_cstring-Local,
}

-- What `p` reads is not empty.
pub record Consumes {A : Type 0} (p : Parser A) : Type 0 where
  pub shrinks : (r : Bytes) (a : A) (r' : Bytes) → p r ≡ ok (a, r') → length r' < length r

Took-le : {A : Type 0} {p : Parser A} {a : A} {r r' : Bytes} → Took p a r r' → length r' ≤ length r
Took-le {r'} t = omega (arith, ap {B = ℕ} length t.whole, length-append t.used r')

pub keeps :
    {A : Type 0} {p : Parser A}
    → Local p
    → {r : Bytes} {a : A} {r' : Bytes} → p r ≡ ok (a, r')
    → length r' ≤ length r
keeps l {r} {a} {r'} h = Took-le (l.took r a r' h)

pub bind-Consumes :
    {A B : Type 0} {m : Parser A} {next : A → Parser B}
    → Consumes m
    → ((a : A) → Local (next a))
    → Consumes (m >>= next)
bind-Consumes {A} {B} {m} {next} c k = record {
  shrinks = λ r b r'' h.
      let (a, r', e, f) = bind_cases m next r h in omega (arith, c.shrinks r a r' e, keeps (k a) f);
}

byte_shrinks : (r : Bytes) (a : ℕ) (r' : Bytes) → byte r ≡ ok (a, r') → length r' < length r
unfolding byte
byte_shrinks [] a r' h = cc
byte_shrinks (b ∷ r) a r' h = ground arith

pub byte-Consumes : Consumes byte
byte-Consumes = record { shrinks = byte_shrinks }

uint16_shrinks : (r : Bytes) (a : ℕ) (r' : Bytes) → uint16 r ≡ ok (a, r') → length r' < length r
unfolding uint16
uint16_shrinks [] a r' h = cc
uint16_shrinks (b ∷ []) a r' h = cc
uint16_shrinks (b ∷ c ∷ r) a r' h = ground arith

pub uint16-Consumes : Consumes uint16
uint16-Consumes = record { shrinks = uint16_shrinks }

pub packed-Consumes : (wide : Bool) → Consumes (packed wide)
packed-Consumes wide = subst Consumes (sym (fun_ext (packed_lem wide))) (
    bind-Consumes byte-Consumes (λ head.
      bind-Local (raw-Local (extra_bytes wide head)) (λ ext. pure-Local (packed_word head ext))))

pub int32-Consumes : Consumes int32
int32-Consumes =
    subst Consumes (sym (fun_ext int32_lem))
      (bind-Consumes (packed-Consumes false) (λ v. pure-Local (narrowed v)))

pub int64-Consumes : Consumes int64
unfolding int64
int64-Consumes = packed-Consumes true

pub read_cstring-Consumes : (max : ℕ) → Consumes (read_cstring max)
unfolding read_cstring
read_cstring-Consumes zero = bind-Consumes byte-Consumes (λ b. search local_rules)
read_cstring-Consumes (suc max) = bind-Consumes byte-Consumes (λ b.
    if-Local (b == 0) (pure-Local [])
      (bind-Local (read_cstring-Local max) (λ s. pure-Local (b ∷ s))))

-- What follows an item: the end, or the rest of the loop in front of which it stands.
abbrev pub onward : {A : Type 0} → Parser (List A) → Option A → Parser (List A)
onward rest x = elim x [ none ↦ pure [] | some a ↦ (rest >>= λ items. pure (a ∷ items)) ]

onward_swap :
    {A : Type 0} (rest rest' : Parser (List A)) (x : Option A) (r : Bytes) {all : List A}
    {r'' : Bytes}
    → ((items : List A) (s : Bytes) → rest r ≡ ok (items, s) → rest' r ≡ ok (items, s))
    → onward rest x r ≡ ok (all, r'')
    → onward rest' x r ≡ ok (all, r'')
onward_swap rest rest' none r k e = e
onward_swap rest rest' (some a) r k e =
    let (items, s, h, t) = bind_cases rest (λ items. pure (a ∷ items)) r e in
    bind_again rest' (λ items. pure (a ∷ items)) (k items s h) ∙ t

-- With a fuel above the number of bytes the loop gives what it gives with any other fuel.
until_enough :
    {A : Type 0} (f g : ℕ) (item : Parser (Option A)) (r : Bytes) (all : List A) (r' : Bytes)
    → Consumes item
    → length r < f
    → read_until g item r ≡ ok (all, r')
    → read_until f item r ≡ ok (all, r')
unfolding read_until
until_enough zero g item r all r' c h e = elim h [ ]
until_enough (suc f) zero item r all r' c h e = unfold fail in cc
until_enough {A} (suc f) (suc g) item r all r' c h e =
    let (x, r1, ex, en) = bind_cases item (onward (read_until g item)) r e in
    bind_again item (onward (read_until f item)) ex
    ∙ onward_swap (read_until g item) (read_until f item) x r1
        (λ items s. until_enough f g item r1 items s c (omega (arith, c.shrinks r x r1 ex))) en

onward-Took :
    {A : Type 0} (rest : Parser (List A)) (x : Option A)
    → ((r : Bytes) (items : List A) (s : Bytes) → rest r ≡ ok (items, s) → Took rest items r s)
    → (r : Bytes) (all : List A) (r' : Bytes) → onward rest x r ≡ ok (all, r')
    → Took (onward rest x) all r r'
onward-Took rest none k r all r' e = (pure-Local []).took r all r' e
onward-Took rest (some a) k r all r' e =
    let (items, s, h, t) = bind_cases rest (λ items. pure (a ∷ items)) r e in
    Took-bind (λ items. pure (a ∷ items)) (k r items s h) ((pure-Local (a ∷ items)).took s all r' t)

until-Took :
    {A : Type 0} (f : ℕ) (item : Parser (Option A))
    → Local item
    → (r : Bytes) (all : List A) (r' : Bytes) → read_until f item r ≡ ok (all, r')
    → Took (read_until f item) all r r'
unfolding read_until
until-Took zero item l r all r' e = unfold fail in cc
until-Took (suc f) item l r all r' e =
    let (x, r1, ex, en) = bind_cases item (onward (read_until f item)) r e in
    Took-bind (onward (read_until f item)) (l.took r x r1 ex)
      (onward-Took (read_until f item) x (until-Took f item l) r1 all r' en)

onward_steady :
    {A : Type 0} (rest : Parser (List A)) (x : Option A) (r : Bytes)
    → rest r ≢ err stuck
    → onward rest x r ≢ err stuck
onward_steady rest none r h = (pure-Local []).steady r
onward_steady rest (some a) r h =
    bind_steady rest (λ items. pure (a ∷ items)) r h
      (λ items s e. (pure-Local (a ∷ items)).steady s)

until_steady :
    {A : Type 0} (f : ℕ) (item : Parser (Option A)) (r : Bytes)
    → Local item
    → Consumes item
    → length r < f
    → read_until f item r ≢ err stuck
unfolding read_until
until_steady zero item r l c h = elim h [ ]
until_steady (suc f) item r l c h =
    bind_steady item (onward (read_until f item)) r (l.steady r) (λ x r1 e.
      onward_steady (read_until f item) x r1
        (until_steady f item r1 l c (omega (arith, c.shrinks r x r1 e))))

read_all-Took :
    {A : Type 0} (item : Parser (Option A))
    → Local item
    → Consumes item
    → (r : Bytes) (all : List A) (r' : Bytes) → read_all item r ≡ ok (all, r')
    → Took (read_all item) all r r'
unfolding read_all
read_all-Took item l c r all r' e =
    let t = until-Took (suc (length r)) item l r all r' e in
    record {
      used = t.used;
      whole = t.whole;
      again = λ more.
          until_enough (suc (length (t.used ++ more))) (suc (length r)) item (t.used ++ more) all
            more c (omega arith) (t.again more);
    }

read_all_steady :
    {A : Type 0} (item : Parser (Option A))
    → Local item
    → Consumes item
    → (r : Bytes) → read_all item r ≢ err stuck
unfolding read_all
read_all_steady item l c r = until_steady (suc (length r)) item r l c (omega arith)

pub read_all-Local :
    {A : Type 0} {item : Parser (Option A)} → Local item → Consumes item → Local (read_all item)
read_all-Local {A} {item} l c = record {
  took = read_all-Took item l c;
  steady = read_all_steady item l c;
}

pub read_all-Consumes :
    {A : Type 0} {item : Parser (Option A)} → Local item → Consumes item → Consumes (read_all item)
unfolding read_all read_until
read_all-Consumes {A} {item} l c = record {
  shrinks = λ r all r' e.
      let (x, r1, ex, en) = bind_cases item (onward (read_until (length r) item)) r e in
      omega (
        arith,
        c.shrinks r x r1 ex,
        Took-le (
            onward-Took (read_until (length r) item) x (until-Took (length r) item l) r1 all r' en),
      );
}

-- The rules by which `search` proves a reader local, loops included.
pub ruleset loop_rules = (
  local_rules, read_all-Local, bind-Consumes, byte-Consumes, uint16-Consumes, int32-Consumes,
  read_cstring-Consumes,
)

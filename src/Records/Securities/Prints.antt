-- ===== src/Records/Securities/Prints.antt =====
-- Bytes that a reader takes for a value, whatever follows them.
use txmlconnector.Common.{ℕ, zero, suc, ◌/◌, ◌%◌, ◌^◌, ◌≤◌, ◌<◌, ◌≡◌, refl, ap, arith}
use txmlconnector.Common.{[], ◌∷◌, ◌++◌, append_assoc, Bytes, length, take, ok}
use txmlconnector.Wire.Words.{IsU16, IsWord32}
use txmlconnector.Wire.Writer.{write_uint16, write_int32, write_string, write_raw, before_nul}
use txmlconnector.Wire.Reader.{byte, uint16, int32, raw, little_endian}
use txmlconnector.Wire.Packed.{int32-write_int32}
use txmlconnector.Wire.Fields.{uint16-write_uint16, raw-write_raw, string-write_string}
use txmlconnector.Records.Parser.{Parser, ◌>>=◌, pure}
use txmlconnector.Records.Dictionary.{str}
use txmlconnector.Records.Securities.{if_more}
use native.Mathlib.Nat.{pow-suc}
use mathlib.Core.Path.{subst}

pub record Prints {A : Type 0} (w : Bytes) (p : Parser A) (a : A) : Type 0 where
  pub reads : (rest : Bytes) → p (w ++ rest) ≡ ok (a, rest)

pub bind-Prints :
    {A B : Type 0} {w v : Bytes} {m : Parser A} {a : A} {b : B} (next : A → Parser B)
    → Prints w m a
    → Prints v (next a) b
    → Prints (w ++ v) (m >>= next) b
unfolding ◌>>=◌
bind-Prints {w} {v} {m} next x y = record {
  reads = λ rest. rw (append_assoc w v rest) (rw (x.reads (v ++ rest), ◌>>=◌) (y.reads rest));
}

pub pure-Prints : {A : Type 0} (a : A) → Prints [] (pure a) a
unfolding pure
pure-Prints a = record { reads = λ rest. refl }

-- The last read of a sequence that then returns a value.
pub bind-end :
    {A B : Type 0} {w : Bytes} {m : Parser A} {a : A} {b : B} (next : A → Parser B)
    → Prints w m a
    → Prints [] (next a) b
    → Prints w (m >>= next) b
unfolding ◌>>=◌
bind-end {w} {m} next x y = record { reads = λ rest. rw (x.reads rest, ◌>>=◌) (y.reads rest) }

-- The last read of a sequence may take what is left.
pub bind-last :
    {A B : Type 0} {w v : Bytes} {m : Parser A} {a : A} {b : B} (next : A → Parser B)
    → Prints w m a
    → next a v ≡ ok (b, [])
    → (m >>= next) (w ++ v) ≡ ok (b, [])
unfolding ◌>>=◌
bind-last {w} {v} {m} next x y = rw (x.reads v, ◌>>=◌) y

pub pure-last :
    {A B : Type 0} (p : Parser A) (f : A → B) (w : Bytes) {a : A}
    → p w ≡ ok (a, [])
    → (p >>= λ x. pure (f x)) w ≡ ok (f a, [])
unfolding ◌>>=◌ pure
pure-last p f w e = rw (e, ◌>>=◌) refl

pub bind-more :
    {A B : Type 0} {w v : Bytes} {m : Parser A} {a : A} {b : B} (absent : A) (next : A → Parser B)
    → Prints w m a
    → 1 ≤ length w
    → next a v ≡ ok (b, [])
    → (if_more m absent >>= next) (w ++ v) ≡ ok (b, [])
unfolding ◌>>=◌ if_more
bind-more {w = []} absent next x l y = absurd (omega arith)
bind-more {w = c ∷ w} {v} {m} absent next x l y = rw (x.reads v, ◌>>=◌) y

pub byte-Prints : (b : ℕ) → Prints (b ∷ []) byte b
unfolding byte
byte-Prints b = record { reads = λ rest. refl }

pub uint16-Prints : (v : ℕ) → IsU16 v → Prints (write_uint16 [] v) uint16 v
uint16-Prints v h = record { reads = λ rest. uint16-write_uint16 v rest h }

pub int32-Prints : (v : ℕ) → IsWord32 v → Prints (write_int32 [] v) int32 v
int32-Prints v h = record { reads = λ rest. int32-write_int32 v rest h }

pub raw-Prints : (n : ℕ) (b : Bytes) → length b ≡ n → Prints b (raw n) b
unfolding write_raw
raw-Prints n b h = record {
  reads = λ rest.
      subst (λ k. raw k (b ++ rest) ≡ ok (b, rest)) h (unfold write_raw in raw-write_raw b rest);
}

-- A text without a NUL that is not too long.
abbrev pub IsText : ℕ → Bytes → Type 0
IsText max s = take max (before_nul s) ≡ s

pub str-Prints :
    (cp1251 : Bytes → Bytes) (max : ℕ) (s : Bytes)
    → IsText max s
    → Prints (write_string [] s max) (str cp1251 max) (cp1251 s)
unfolding str ◌>>=◌ pure
str-Prints cp1251 max s h = record {
  reads = λ rest. rw (string-write_string s max rest, ◌>>=◌) (ap (λ x. ok (cp1251 x, rest)) h);
}

-- The bytes of a number, lowest first.
pub le_bytes : ℕ → ℕ → Bytes
le_bytes zero v = []
le_bytes (suc n) v = (v % 256) ∷ le_bytes n (v / 256)

pub length-le_bytes : (n v : ℕ) → length (le_bytes n v) ≡ n
unfolding le_bytes
length-le_bytes zero v = refl
length-le_bytes (suc n) v = ap suc (length-le_bytes n (v / 256))

pub little_endian-le_bytes : (n v : ℕ) → v < 256 ^ n → v < 2 ^ 64 → little_endian (le_bytes n v) ≡ v
unfolding le_bytes little_endian
little_endian-le_bytes zero v h k = omega arith
little_endian-le_bytes (suc n) v h k =
    ground (arith, little_endian-le_bytes n (v / 256) (omega (arith, pow-suc 256 n)) (omega arith))

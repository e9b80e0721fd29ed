-- ===== src/Records/Parser/Basic.antt =====
-- The methods of the reader are local.
use txmlconnector.Common.{ℕ, zero, suc, ◌≡◌, ◌≢◌, refl, sym, arith}
use txmlconnector.Common.{Bool, true, false, [], ◌∷◌, ◌++◌}
use txmlconnector.Common.{Bytes, length, take, drop, length-take, take-append-drop}
use txmlconnector.Common.{
  ltb, ◌==◌, if◌then◌else◌, ok, err, short_buffer, stuck, Bool-cases, inl, inr,
}
use txmlconnector.Wire.Reader.{
  Read, byte, uint16, raw, string, packed, int32, int64, extra_bytes, packed_word,
}
use txmlconnector.Records.Parser.{◌>>=◌, pure, fail, read_cstring}
use txmlconnector.Wire.Writer.{write_raw}
use txmlconnector.Wire.Fields.{raw-write_raw}
use mathlib.Core.Path.{subst, fun_ext}
use txmlconnector.Common.{◌>>=◌ as then_ok}
use txmlconnector.Wire.Words.{min_int64, min_int32, truncate32}
use txmlconnector.Records.Parser.Local.{
  Took, Local, bind-Local, then-Local, pure-Local, fail-Local, fail-bad_value-Local, if-Local,
}

byte-Took : (r : Bytes) (a : ℕ) (r' : Bytes) → byte r ≡ ok (a, r') → Took byte a r r'
unfolding byte
byte-Took [] a r' h = cc
byte-Took (b ∷ r) a r' h = record {
  used = b ∷ [];
  whole = ground arith;
  again = λ more. ground arith;
}

byte_steady : (r : Bytes) → byte r ≢ err stuck
unfolding byte
byte_steady [] h = cc
byte_steady (b ∷ r) h = cc

pub byte-Local : Local byte
byte-Local = record { took = byte-Took; steady = byte_steady }

uint16-Took : (r : Bytes) (a : ℕ) (r' : Bytes) → uint16 r ≡ ok (a, r') → Took uint16 a r r'
unfolding uint16
uint16-Took [] a r' h = cc
uint16-Took (b ∷ []) a r' h = cc
uint16-Took (b ∷ c ∷ r) a r' h = record {
  used = b ∷ c ∷ [];
  whole = ground arith;
  again = λ more. ground arith;
}

uint16_steady : (r : Bytes) → uint16 r ≢ err stuck
unfolding uint16
uint16_steady [] h = cc
uint16_steady (b ∷ []) h = cc
uint16_steady (b ∷ c ∷ r) h = cc

pub uint16-Local : Local uint16
uint16-Local = record { took = uint16-Took; steady = uint16_steady }

pub raw_cut :
    (n : ℕ) (r : Bytes) {a r' : Bytes}
    → raw n r ≡ ok (a, r')
    → (a ≡ take n r) × (r' ≡ drop n r) × (length (take n r) ≡ n)
unfolding raw
raw_cut n r h = ground (arith, length-take n r)

raw-Took : (n : ℕ) (r a r' : Bytes) → raw n r ≡ ok (a, r') → Took (raw n) a r r'
raw-Took n r a r' h =
    let (ea, er, size) = raw_cut n r h in
    rw (ea, er)
      (record {
        used = take n r;
        whole = sym (take-append-drop n r);
        again = λ more.
            subst (λ (k : ℕ). raw k (take n r ++ more) ≡ ok (take n r, more)) size
              (unfold write_raw in raw-write_raw (take n r) more);
      })

raw_steady : (n : ℕ) (r : Bytes) → raw n r ≢ err stuck
unfolding raw
raw_steady n r h = ground arith

pub raw-Local : (n : ℕ) → Local (raw n)
raw-Local n = record { took = raw-Took n; steady = raw_steady n }

-- The other methods as sequences of these.
pub string-zero :
    (r : Bytes) → string zero r ≡ (byte >>= λ b. if b == 0 then pure [] else fail short_buffer) r
unfolding string byte ◌>>=◌ pure fail
string-zero [] = refl
string-zero (b ∷ r) = ground arith

pub string-suc :
    (max : ℕ) (r : Bytes)
    → string (suc max) r
      ≡ (byte >>= λ b. if b == 0 then pure [] else (string max >>= λ s. pure (b ∷ s))) r
unfolding string byte ◌>>=◌ pure
string-suc max [] = refl
string-suc max (b ∷ r) = elim (Bool-cases (b == 0)) [
  | inl e ↦ rw e
  | inr e ↦ rw e (onward (string max r))
]
  where
    onward :
        (p : Read Bytes)
        → (then_ok {B = Bytes × Bytes} p (λ (s, rest). ok (b ∷ s, rest)))
          ≡ elim p [ ok (s, rest) ↦ ok (b ∷ s, rest) | err e ↦ err e ]
    onward (ok (s, rest)) = refl
    onward (err e) = refl

pub string-Local : (max : ℕ) → Local (string max)
string-Local zero = subst Local (sym (fun_ext string-zero)) (
    bind-Local byte-Local
      (λ b. if-Local (b == 0) (pure-Local []) (fail-Local short_buffer (λ h. cc))))
string-Local (suc max) = subst Local (sym (fun_ext (string-suc max))) (
    bind-Local byte-Local (λ b.
      if-Local (b == 0) (pure-Local []) (bind-Local (string-Local max) (λ s. pure-Local (b ∷ s)))))

raw_short : (n : ℕ) (r : Bytes) → ltb (length r) n ≡ true → raw n r ≡ err short_buffer
unfolding raw
raw_short n r e = rw e

raw_fits : (n : ℕ) (r : Bytes) → ltb (length r) n ≡ false → raw n r ≡ ok (take n r, drop n r)
unfolding raw
raw_fits n r e = rw e

pub packed_lem :
    (wide : Bool) (r : Bytes)
    → packed wide r
      ≡ (byte >>= λ head. raw (extra_bytes wide head) >>= λ ext. pure (packed_word head ext)) r
unfolding packed byte ◌>>=◌ pure
packed_lem wide [] = refl
packed_lem wide (head ∷ r) = elim (Bool-cases (ltb (length r) (extra_bytes wide head))) [
  | inl e ↦ rw e (rw (raw_short _ r e, ◌>>=◌))
  | inr e ↦ rw e (rw (raw_fits _ r e, ◌>>=◌))
]

pub packed-Local : (wide : Bool) → Local (packed wide)
packed-Local wide = subst Local (sym (fun_ext (packed_lem wide))) (
    bind-Local byte-Local (λ head.
      bind-Local (raw-Local (extra_bytes wide head)) (λ ext. pure-Local (packed_word head ext))))

pub int64-Local : Local int64
unfolding int64
int64-Local = packed-Local true

abbrev pub narrowed : ℕ → ℕ
narrowed v = if v == min_int64 then min_int32 else truncate32 v

pub int32_lem : (r : Bytes) → int32 r ≡ (packed false >>= λ v. pure (narrowed v)) r
unfolding int32 ◌>>=◌ pure
int32_lem r = onward (packed false r)
  where
    onward :
        (p : Read ℕ)
        → (then_ok {B = ℕ × Bytes} p (λ (v, rest). ok (narrowed v, rest)))
          ≡ elim p [ ok (v, rest) ↦ ok (narrowed v, rest) | err e ↦ err e ]
    onward (ok (v, rest)) = refl
    onward (err e) = refl

pub int32-Local : Local int32
int32-Local =
    subst Local (sym (fun_ext int32_lem))
      (bind-Local (packed-Local false) (λ v. pure-Local (narrowed v)))

pub read_cstring-Local : (max : ℕ) → Local (read_cstring max)
unfolding read_cstring
read_cstring-Local zero =
    bind-Local byte-Local (λ b. if-Local (b == 0) (pure-Local []) (fail-bad_value-Local))
read_cstring-Local (suc max) = bind-Local byte-Local (λ b.
    if-Local (b == 0) (pure-Local [])
      (bind-Local (read_cstring-Local max) (λ s. pure-Local (b ∷ s))))

-- The rules by which `search` proves a reader local.
pub ruleset local_rules = (
  bind-Local, then-Local, pure-Local, fail-bad_value-Local, if-Local, byte-Local, uint16-Local,
  raw-Local, string-Local, packed-Local, int64-Local, int32-Local, read_cstring-Local,
)

-- ===== src/Records/Securities/Ends.antt =====
-- The layout of the optional end of an R_SEC_NEW body, and that its reader takes it.
use txmlconnector.Common.{ℕ, zero, suc, ◌≤◌, ◌≡◌, refl, arith, true}
use txmlconnector.Common.{
  List, [], ◌∷◌, ◌++◌, append-nil, Bytes, length, length-append, take, ok, ltb, if◌then◌else◌,
}
use mathlib.Core.Path.{subst}
use txmlconnector.Wire.Words.{IsWord32}
use txmlconnector.Wire.Writer.{write_int32, write_string, before_nul}
use txmlconnector.Wire.Reader.{raw}
use txmlconnector.Records.Parser.{◌>>=◌, pure}
use txmlconnector.Records.Securities.{
  Tail, no_zone, if_more, rest_of, read_tail12, read_zone, read_names, read_texts, read_tail,
}
use txmlconnector.Records.Securities.Prints.{
  Prints, bind-Prints, bind-end, pure-Prints, bind-more, byte-Prints, int32-Prints, raw-Prints,
  IsText, str-Prints,
}

-- The groups of the optional end.
abbrev pub zone_bytes : Tail → Bytes
zone_bytes t = write_int32 [] t.tail3 ++ t.time_zone

abbrev pub names_bytes : Tail → Bytes
names_bytes t = write_string [] t.mic 5 ++ write_string [] t.ticker 0x19

abbrev pub texts_bytes : Tail → Bytes
texts_bytes t =
    write_int32 [] t.tail4
    ++ (write_int32 [] t.tail5 ++ (write_string [] t.text1 0x19 ++ write_string [] t.text2 6))

-- An end of so many groups.
abbrev pub groups : Tail → List Bytes
groups t =
    (t.tail1 ∷ t.tail2 ∷ [])
    ∷ zone_bytes t
    ∷ names_bytes t
    ∷ texts_bytes t
    ∷ (t.tail6 ∷ [])
    ∷ t.extra
    ∷ []

abbrev pub joined_bytes : List Bytes → Bytes
joined_bytes [] = []
joined_bytes (g ∷ gs) = g ++ joined_bytes gs

abbrev pub tail_bytes : ℕ → Tail → Bytes
tail_bytes n t = joined_bytes (take n (groups t))

pub record FitsTail (t : Tail) : Type 0 where
  pub tail3 : IsWord32 t.tail3
  pub time_zone : length t.time_zone ≡ 16
  pub mic : IsText 5 t.mic
  pub ticker : IsText 0x19 t.ticker
  pub tail4 : IsWord32 t.tail4
  pub tail5 : IsWord32 t.tail5
  pub text1 : IsText 0x19 t.text1
  pub text2 : IsText 6 t.text2

raw_all : (b : Bytes) → raw (length b) b ≡ ok (b, [])
raw_all b =
    subst (λ r. raw (length b) r ≡ ok (b, [])) (append-nil b)
      ((raw-Prints (length b) b refl).reads [])

module _ (cp1251 : Bytes → Bytes) where
  -- What is parsed of an end with so many groups: the others are zero or empty.
  abbrev pub decoded_tail : ℕ → Tail → Tail
  decoded_tail n t = record {
    tail1 = if ltb 0 n then t.tail1 else 0;
    tail2 = if ltb 0 n then t.tail2 else 0;
    tail3 = if ltb 1 n then t.tail3 else 0;
    time_zone = if ltb 1 n then t.time_zone else no_zone;
    has_time_zone = ltb 1 n;
    mic = if ltb 2 n then cp1251 t.mic else [];
    ticker = if ltb 2 n then cp1251 t.ticker else [];
    tail4 = if ltb 3 n then t.tail4 else 0;
    tail5 = if ltb 3 n then t.tail5 else 0;
    text1 = if ltb 3 n then cp1251 t.text1 else [];
    text2 = if ltb 3 n then cp1251 t.text2 else [];
    tail6 = if ltb 4 n then t.tail6 else 0;
    extra = if ltb 5 n then t.extra else [];
  }

  tail12-Prints : (a b : ℕ) → Prints (a ∷ b ∷ []) (read_tail12 cp1251) (a, b)
  unfolding read_tail12
  tail12-Prints a b =
      bind-Prints _ (byte-Prints a) (bind-end _ (byte-Prints b) (pure-Prints (a, b)))

  zone-Prints :
      (t : Tail)
      → FitsTail t
      → Prints (zone_bytes t) (read_zone cp1251) (t.tail3, t.time_zone, true)
  unfolding read_zone
  zone-Prints t h = bind-Prints _ (int32-Prints t.tail3 h.tail3) (
      bind-end _ (raw-Prints 16 t.time_zone h.time_zone) (pure-Prints (t.tail3, t.time_zone, true)))

  names-Prints :
      (t : Tail)
      → FitsTail t
      → Prints (names_bytes t) (read_names cp1251) (cp1251 t.mic, cp1251 t.ticker)
  unfolding read_names
  names-Prints t h = bind-Prints _ (str-Prints cp1251 5 t.mic h.mic) (
      bind-end _ (str-Prints cp1251 0x19 t.ticker h.ticker)
        (pure-Prints (cp1251 t.mic, cp1251 t.ticker)))

  texts-Prints :
      (t : Tail)
      → FitsTail t
      → Prints
          (texts_bytes t)
          (read_texts cp1251)
          (t.tail4, t.tail5, cp1251 t.text1, cp1251 t.text2)
  unfolding read_texts
  texts-Prints t h = bind-Prints _ (int32-Prints t.tail4 h.tail4) (
      bind-Prints _ (int32-Prints t.tail5 h.tail5) (
        bind-Prints _ (str-Prints cp1251 0x19 t.text1 h.text1) (
          bind-end _ (str-Prints cp1251 6 t.text2 h.text2)
            (pure-Prints (t.tail4, t.tail5, cp1251 t.text1, cp1251 t.text2)))))

  -- Behind the other groups: the rest of the body.
  extra_read :
      {A : Type 0} (e : Bytes) (f : Bytes → A)
      → (if_more rest_of [] >>= λ x. pure (f x)) (e ++ []) ≡ ok (f e, [])
  unfolding if_more rest_of pure ◌>>=◌
  extra_read [] f = refl
  extra_read (b ∷ e) f = rw (append-nil e) (rw (raw_all (b ∷ e), ◌>>=◌) refl)

  some_text : (s : Bytes) (max : ℕ) → 1 ≤ length (write_string [] s max)
  unfolding write_string
  some_text s max = omega (arith, length-append (take max (before_nul s)) (0 ∷ []))

  some_zone : (t : Tail) → FitsTail t → 1 ≤ length (zone_bytes t)
  some_zone t h = omega (arith, length-append (write_int32 [] t.tail3) t.time_zone, h.time_zone)

  some_names : (t : Tail) → 1 ≤ length (names_bytes t)
  some_names t = omega (
    arith,
    length-append (write_string [] t.mic 5) (write_string [] t.ticker 0x19),
    some_text t.mic 5,
  )

  some_texts : (t : Tail) → 1 ≤ length (texts_bytes t)
  some_texts t =
      let texts = write_string [] t.text1 0x19 ++ write_string [] t.text2 6 in
      omega (
        arith,
        length-append (write_int32 [] t.tail4) (write_int32 [] t.tail5 ++ texts),
        length-append (write_int32 [] t.tail5) texts,
        length-append (write_string [] t.text1 0x19) (write_string [] t.text2 6),
        some_text t.text2 6,
      )

  pub tail_read :
      (n : ℕ) (t : Tail)
      → n ≤ 6
      → FitsTail t
      → read_tail cp1251 (tail_bytes n t) ≡ ok (decoded_tail n t, [])
  unfolding read_tail
  tail_read zero t l h = unfold if_more pure ◌>>=◌ in refl
  tail_read (suc zero) t l h =
      bind-more _ _ (tail12-Prints t.tail1 t.tail2) (omega arith)
        (unfold if_more pure ◌>>=◌ in refl)
  tail_read (suc (suc zero)) t l h =
      bind-more _ _ (tail12-Prints t.tail1 t.tail2) (omega arith)
        (bind-more _ _ (zone-Prints t h) (some_zone t h) (unfold if_more pure ◌>>=◌ in refl))
  tail_read (suc (suc (suc zero))) t l h =
      bind-more _ _ (tail12-Prints t.tail1 t.tail2) (omega arith) (
        bind-more _ _ (zone-Prints t h) (some_zone t h)
          (bind-more _ _ (names-Prints t h) (some_names t) (unfold if_more pure ◌>>=◌ in refl)))
  tail_read (suc (suc (suc (suc zero)))) t l h =
      bind-more _ _ (tail12-Prints t.tail1 t.tail2) (omega arith) (
        bind-more _ _ (zone-Prints t h) (some_zone t h) (
          bind-more _ _ (names-Prints t h) (some_names t)
            (bind-more _ _ (texts-Prints t h) (some_texts t) (unfold if_more pure ◌>>=◌ in refl))))
  tail_read (suc (suc (suc (suc (suc zero))))) t l h =
      bind-more _ _ (tail12-Prints t.tail1 t.tail2) (omega arith) (
        bind-more _ _ (zone-Prints t h) (some_zone t h) (
          bind-more _ _ (names-Prints t h) (some_names t) (
            bind-more _ _ (texts-Prints t h) (some_texts t) (
              bind-more _ _ (byte-Prints t.tail6) (omega arith)
                (unfold if_more pure ◌>>=◌ in refl)))))
  tail_read (suc (suc (suc (suc (suc (suc zero)))))) t l h =
      bind-more _ _ (tail12-Prints t.tail1 t.tail2) (omega arith) (
        bind-more _ _ (zone-Prints t h) (some_zone t h) (
          bind-more _ _ (names-Prints t h) (some_names t) (
            bind-more _ _ (texts-Prints t h) (some_texts t)
              (bind-more _ _ (byte-Prints t.tail6) (omega arith) (extra_read t.extra _)))))
  tail_read (suc (suc (suc (suc (suc (suc (suc n))))))) t l h = absurd (omega arith)

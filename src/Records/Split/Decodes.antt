-- ===== src/Records/Split/Decodes.antt =====
-- What the splitter cuts is what the parser of the tag takes.
use txmlconnector.Common.{
  ℕ, ◌≡◌, refl, sym, ap, ◌∙◌, arith, ==_iff, Bool-cases, inl, inr, ◌-◌, ◌++◌, append-nil,
  append_assoc,
}
use txmlconnector.Common.{
  Bool, true, false, Option, [], ◌∷◌, Bytes, ok, err, ◌==◌, length, take, length-append,
  take-append,
}
use txmlconnector.Wire.Reader.{Read, int32}
use txmlconnector.Records.Parser.{Parser, ◌>>◌, finished, value_of}
use txmlconnector.Records.Parser.Local.{Local}
use txmlconnector.Records.Parser.Follows.{Follows, Any}
use txmlconnector.Records.Bodies.{cut}
use txmlconnector.Records.Split.{body_of}
use txmlconnector.Records.Split.Parses.{parses, is_ok, trade_date}
use mathlib.Core.Path.{subst}
use txmlconnector.Records.Parser.Local.{bind_cases}
use txmlconnector.Records.Parser.Basic.{int32-Local}
use txmlconnector.Records.Bodies.{skip_forts_session, more_byte}
use txmlconnector.Records.Split.{option_body, state_body, market_body}
use txmlconnector.Records.Split.Locals.{
  read_family-Local, read_end_of_family-Local, read_end_of_families-Local, read_strikes-Local,
  read_ticks-Local, skip_message-Local, read_news_header_fields-Local, skip_sec_rate-Local,
  skip_union-Local, skip_edp_rate-Local, skip_am_book-Local, skip_quotation-Local,
}
use txmlconnector.Records.Split.Agree.{
  itself-Follows, read_message-skip_message, read_sec_rate-skip_sec_rate, read_union-skip_union,
  read_edp_rate-skip_edp_rate, read_am_book-skip_am_book, read_quotation-skip_quotation,
}
use txmlconnector.Records.Options.{
  parse_family, parse_end_of_family, parse_end_of_families, parse_strikes, read_family,
  read_end_of_family, read_end_of_families, read_strikes,
}
use txmlconnector.Records.Misc.{
  parse_sec_rate, parse_union_category, parse_forts_session, parse_edp_rate, parse_am_book,
}
use txmlconnector.Records.Quotes.{parse_quotation}
use txmlconnector.Records.Ticks.{read_ticks, parse_tick_record}
use txmlconnector.Records.Messages.{parse_rmsg, parse_news_header, read_news_header_fields}

front_size : (r front r' : Bytes) → r ≡ front ++ r' → length r - length r' ≡ length front
front_size r front r' e = omega (arith, ap {B = ℕ} length e, length-append front r')

pub take_front : (r front r' : Bytes) → r ≡ front ++ r' → take (length r - length r') r ≡ front
take_front r front r' e =
    ap (λ n. take n r) (front_size r front r' e) ∙ ap (take (length front)) e ∙ take-append front r'

pub cut_cases :
    {A : Type 0} (p : Parser A) (r : Bytes) {body r' : Bytes}
    → cut p r ≡ ok (body, r')
    → (a : A) × (p r ≡ ok (a, r')) × (body ≡ take (length r - length r') r)
unfolding cut
cut_cases {A} p r {body} {r'} h = split (p r) refl
  where
    split :
        (x : Read A)
        → p r ≡ x
        → (a : A) × (p r ≡ ok (a, r')) × (body ≡ take (length r - length r') r)
    split (err f) e = cc (rw (e, cut) at h)
    split (ok (a, s)) e =
        let (eb, es) = both_parts (rw (e, cut) at h) in
        (a, e ∙ ap (λ x. ok (a, x)) es, sym eb ∙ ap (λ x. take (length r - length x) r) es)
      where
        both_parts :
            {t u v w : Bytes} → ◌≡◌ {A = Read Bytes} (ok (t, u)) (ok (v, w)) → (t ≡ v) × (u ≡ w)
        both_parts q = (cc, cc)

-- A cut body is the bytes that were read, and the reader takes exactly them.
pub cut-Local :
    {A : Type 0} {p : Parser A} (r : Bytes) {body r' : Bytes}
    → Local p
    → cut p r ≡ ok (body, r')
    → (r ≡ body ++ r') × (a : A) × (p body ≡ ok (a, []))
cut-Local {p} r {body} {r'} l h =
    let (a, e, eb) = cut_cases p r h in
    let t = l.took r a r' e in
    let same = eb ∙ take_front r t.used r' t.whole in
    (
      t.whole ∙ ap (λ x. x ++ r') (sym same),
      a,
      subst (λ b. p b ≡ ok (a, [])) (append-nil t.used ∙ sym same) (t.again []),
    )

-- The parser that follows the skipping one reads the whole of a cut body.
cut-whole :
    {A B : Type 0} {p : Parser A} {q : Parser B} (r : Bytes) {body r' : Bytes}
    → Local p
    → Follows Any p q
    → cut p r ≡ ok (body, r')
    → (b : B) × (q body ≡ ok (b, []))
cut-whole r l k h = let (_, a, e) = cut-Local r l h in let (b, _, f) = k.follow _ a [] e in (b, f)

cut-finished :
    {A B : Type 0} {p : Parser A} {q : Parser B} (r : Bytes) {body r' : Bytes}
    → Local p
    → Follows Any p q
    → cut p r ≡ ok (body, r')
    → is_ok (finished (q body)) ≡ true
cut-finished r l k h = let (b, f) = cut-whole r l k h in rw f refl

cut-value_of :
    {A B : Type 0} {p : Parser A} {q : Parser B} (r : Bytes) {body r' : Bytes}
    → Local p
    → Follows Any p q
    → cut p r ≡ ok (body, r')
    → is_ok (value_of (q body)) ≡ true
cut-value_of r l k h = let (b, f) = cut-whole r l k h in rw f refl

-- R_FORTS_SESSION may take a byte that its parser leaves.
forts_part :
    (bounded : Bool) (s r' : Bytes)
    → more_byte bounded s ≡ ok (tt, r')
    → (extra : Bytes) × (s ≡ extra ++ r')
unfolding more_byte
forts_part bounded [] r' h = ([], ground arith)
forts_part true (b ∷ s) r' h = (b ∷ [], ground arith)
forts_part false (b ∷ s) r' h = ([], ground arith)

forts_parses :
    (bounded : Bool) (r body r' : Bytes)
    → cut (skip_forts_session bounded) r ≡ ok (body, r')
    → is_ok (value_of (int32 body)) ≡ true
unfolding skip_forts_session ◌>>◌
forts_parses bounded r body r' h =
    let (_, e, eb) = cut_cases (skip_forts_session bounded) r h in
    let (v, s, ev, es) = bind_cases int32 (λ _. more_byte bounded) r e in
    let t = int32-Local.took r v s ev in
    let (extra, ex) = forts_part bounded s r' es in
    let whole = t.whole ∙ ap (λ x. t.used ++ x) ex ∙ sym (append_assoc t.used extra r') in
    rw (eb ∙ take_front r (t.used ++ extra) r' whole, t.again extra) refl

-- The tag is `n`, or the test for it is false.
at : (P : ℕ → Type 0) (n tag : ℕ) → P n → (tag == n ≡ false → P tag) → P tag
at P n tag p other = elim (Bool-cases (tag == n)) [
  | inl e ↦ subst P (sym ((==_iff tag n).0 e)) p
  | inr e ↦ other e
]

-- Whatever stands behind it, a body that the splitter cuts for a tag whose package has a parser is
-- taken by that parser.
pub parses-body_of :
    (inflate : Bytes → Option ℕ) (bounded : Bool) (offset tag : ℕ) (r body r' : Bytes)
    → body_of inflate bounded offset tag r ≡ ok (body, r')
    → parses tag body ≡ true
unfolding body_of option_body state_body market_body parses parse_family parse_end_of_family
    parse_end_of_families parse_strikes parse_tick_record parse_rmsg parse_news_header
    parse_sec_rate trade_date parse_union_category parse_forts_session parse_edp_rate parse_am_book
    parse_quotation
parses-body_of inflate bounded offset tag r body r' h =
    at P 0x6f tag (cut-finished r read_family-Local (itself-Follows read_family))
      (λ e0.
        at P 0x71 tag (cut-finished r read_end_of_family-Local (itself-Follows read_end_of_family))
          (λ e1.
            at P 0x70 tag
              (cut-finished r read_end_of_families-Local (itself-Follows read_end_of_families))
              (λ e2.
                at P 0x78 tag (cut-finished r read_strikes-Local (itself-Follows read_strikes))
                  (λ e3.
                    at P 0x5a tag (cut-finished r read_ticks-Local (itself-Follows read_ticks))
                      (λ e4.
                        at P 0x01 tag (cut-finished r skip_message-Local read_message-skip_message)
                          (λ e5.
                            at P 0x35 tag
                              (cut-finished r read_news_header_fields-Local
                                (itself-Follows read_news_header_fields))
                              (λ e6.
                                at P 0x0a tag
                                  (cut-finished r skip_sec_rate-Local read_sec_rate-skip_sec_rate)
                                  (λ e7.
                                    at P 0x3d tag
                                      (cut-value_of r int32-Local (itself-Follows int32))
                                      (λ e8.
                                        at P 0x68 tag
                                          (cut-value_of r skip_union-Local read_union-skip_union)
                                          (λ e9.
                                            at P 0x6b tag (forts_parses bounded r body r') (λ e10.
                                              at P 0x6e tag
                                                (cut-value_of r skip_edp_rate-Local
                                                  read_edp_rate-skip_edp_rate)
                                                (λ e11.
                                                  at P 0x5c tag
                                                    (cut-value_of r skip_am_book-Local
                                                      read_am_book-skip_am_book)
                                                    (λ e12.
                                                      at P 0x06 tag
                                                        (cut-value_of r skip_quotation-Local
                                                          read_quotation-skip_quotation)
                                                        (λ e13. λ h.
                                                          rw
                                                            (
                                                            e0, e1, e2, e3, e4, e5, e6, e7, e8, e9,
                                                            e10, e11, e12, e13,
                                                            )
                                                            refl))))))))))))))
      h
  where
    P : ℕ → Type 0
    P t = body_of inflate bounded offset t r ≡ ok (body, r') → parses t body ≡ true

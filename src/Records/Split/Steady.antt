-- ===== src/Records/Split/Steady.antt =====
-- The fault that `records` returns is never that of fuel.
use txmlconnector.Common.{
  ℕ, zero, suc, ◌-◌, ◌<◌, ◌≡◌, ◌≢◌, refl, arith, Bool, true, false, Option, none, some, [], ◌∷◌,
  Bytes,
}
use txmlconnector.Common.{
  Bool-cases, inl, inr, length, ◌==◌, Error, ok, err, stuck, unknown_record, ==_iff, short_buffer,
  skip_range, header_crc, too_large, io_error, bad_value, trailing_bytes, unknown_layout,
  payload_crc,
}
use txmlconnector.Wire.Reader.{Read}
use txmlconnector.Records.Split.Bounds.{body_of-Ends, wrapper_fits}
use txmlconnector.Records.Split.{
  Split, records, records_from, put, joined, settle, unwrapped, body_of, tag_wrapper,
}
use mathlib.Core.Path.{subst}

-- A wrapper passes on the error of its own splitting or that of what follows.
joined_steady :
    (again : Bytes → Split) (body : Bytes) (nested next : Split)
    → nested.fault ≢ some stuck
    → next.fault ≢ some stuck
    → (joined (unwrapped again body nested) next).fault ≢ some stuck
unfolding joined unwrapped put
joined_steady again body nested next hs hn = onward nested.fault refl
  where
    onward :
        (x : Option Error)
        → nested.fault ≡ x
        → (joined (unwrapped again body nested) next).fault ≢ some stuck
    onward none e h = hn (rw (e, unwrapped, joined, put) at h)
    onward (some (unknown_record tag offset)) e h = hn (rw (e, unwrapped, joined, put) at h)
    onward (some stuck) e h = hs e
    onward (some short_buffer) e h = cc (rw (e, unwrapped, joined, put) at h)
    onward (some skip_range) e h = cc (rw (e, unwrapped, joined, put) at h)
    onward (some header_crc) e h = cc (rw (e, unwrapped, joined, put) at h)
    onward (some too_large) e h = cc (rw (e, unwrapped, joined, put) at h)
    onward (some io_error) e h = cc (rw (e, unwrapped, joined, put) at h)
    onward (some bad_value) e h = cc (rw (e, unwrapped, joined, put) at h)
    onward (some trailing_bytes) e h = cc (rw (e, unwrapped, joined, put) at h)
    onward (some unknown_layout) e h = cc (rw (e, unwrapped, joined, put) at h)
    onward (some (payload_crc f t)) e h = cc (rw (e, unwrapped, joined, put) at h)

settle_steady :
    (again : Bool → Bytes → Split) (next : Bytes → Split) (tag : ℕ) (x : Read Bytes)
    → x ≢ err stuck
    → ((body r' : Bytes) → x ≡ ok (body, r') → (next r').fault ≢ some stuck)
    → ((body r' : Bytes)
        → x ≡ ok (body, r')
        → tag ≡ tag_wrapper
        → (again true body).fault ≢ some stuck)
    → (settle again next tag x).fault ≢ some stuck
unfolding settle put
settle_steady again next tag (err e) hx hn ha h = hx (same h)
  where
    same : ◌≡◌ {A = Option Error} (some e) (some stuck) → ◌≡◌ {A = Read Bytes} (err e) (err stuck)
    same q = cc
settle_steady again next tag (ok (body, r')) hx hn ha h = elim (Bool-cases (tag == tag_wrapper)) [
  | inl e ↦
      joined_steady (again false) body (again true body) (next r')
        (ha body r' refl ((==_iff tag tag_wrapper).0 e)) (hn body r' refl) (rw e at h)
  | inr e ↦ hn body r' refl (rw e at h)
]

records_from_steady :
    (inflate : Bytes → Option ℕ) (fuel : ℕ) (bounded : Bool) (size : ℕ) (r : Bytes)
    → length r < fuel
    → (records_from inflate fuel bounded size r).fault ≢ some stuck
unfolding records_from
records_from_steady inflate zero bounded size r f h = elim f [ ]
records_from_steady inflate (suc fuel) bounded size [] f h = cc
records_from_steady inflate (suc fuel) bounded size (tag ∷ r) f h =
    settle_steady (λ limit part. records_from inflate fuel limit (length part) part)
      (λ r'. records_from inflate fuel bounded size r') tag
      (body_of inflate bounded (size - length r) tag r)
      ((body_of-Ends inflate bounded (size - length r) tag).unstuck r)
      (λ body r' e.
        records_from_steady inflate fuel bounded size r'
          (omega (arith, (body_of-Ends inflate bounded (size - length r) tag).shorter r body r' e)))
      (λ body r' e w. records_from_steady inflate fuel true (length body) body (
        omega (
          arith,
          wrapper_fits inflate bounded (size - length r) r body r'
              (subst (λ t. body_of inflate bounded (size - length r) t r ≡ ok (body, r')) w e),
        )))
      h

-- On any payload, whatever the zlib reader finds, the fault is not that the fuel ran out.
pub records_unstuck :
    (inflate : Bytes → Option ℕ) (p : Bytes) → (records inflate p).fault ≢ some stuck
unfolding records
records_unstuck inflate p =
    records_from_steady inflate (suc (length p)) false (length p) p (omega arith)

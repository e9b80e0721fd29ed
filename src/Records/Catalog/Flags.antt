-- ===== src/Records/Catalog/Flags.antt =====
-- What an attribute record does to the flags of a security.
use txmlconnector.Common.{
  ℕ, zero, suc, ◌+◌, ◌*◌, ◌/◌, ◌%◌, ◌<◌, ◌≡◌, ◌⊎◌, refl, ap, ◌∙◌, arith, true, false, ◌||◌,
}
use txmlconnector.Common.{
  some, [], ◌∷◌, Bytes, ◌==◌, ==_iff, if◌then◌else◌, find, insert, find-insert, inl, inr,
}
use txmlconnector.Common.Checks.{passes, passes_each}
use txmlconnector.Records.Securities.{SecNew}
use txmlconnector.Records.Catalog.{
  Catalog, same_id, new_flags, set_flags, security, apply_mutations,
}
use txmlconnector.Records.Catalog.Keys.{same_id-IsEquality}

-- The flags with the bits 0 and 1 as in `v`, and with the bit 2 set where `v` is not 0.
abbrev pub with_low : ℕ → ℕ → ℕ
with_low v flags = flags / 4 * 4 + v

abbrev pub with_permit : ℕ → ℕ → ℕ
with_permit v flags = flags / 8 * 8 + (if v == 0 then 0 else 4) + flags % 4

low_table : passes (λ v. passes (λ flags. new_flags 0x0d v flags == with_low v flags) 256) 4 ≡ true
unfolding passes new_flags
low_table = refl

permit_table :
    passes (λ v. passes (λ flags. new_flags 0x0e v flags == with_permit v flags) 256) 2 ≡ true
unfolding passes new_flags
permit_table = refl

new_flags_low : (v flags : ℕ) → v < 4 → flags < 256 → new_flags 0x0d v flags ≡ with_low v flags
new_flags_low v flags hv =
    let row =
      passes_each (λ w. passes (λ x. new_flags 0x0d w x == with_low w x) 256) 4 v low_table hv in
    λ hf. (==_iff _ _).0 (passes_each (λ x. new_flags 0x0d v x == with_low v x) 256 flags row hf)

new_flags_permit_small :
    (v flags : ℕ) → v < 2 → flags < 256 → new_flags 0x0e v flags ≡ with_permit v flags
new_flags_permit_small v flags hv =
    let row =
      passes_each (λ w. passes (λ x. new_flags 0x0e w x == with_permit w x) 256) 2 v permit_table
        hv in
    λ hf. (==_iff _ _).0 (passes_each (λ x. new_flags 0x0e v x == with_permit v x) 256 flags row hf)

new_flags_permit : (v flags : ℕ) → flags < 256 → new_flags 0x0e v flags ≡ with_permit v flags
unfolding new_flags
new_flags_permit zero flags h = new_flags_permit_small 0 flags (omega arith) h
new_flags_permit (suc v) flags h =
    let set : (suc v == 0) ≡ false = ground arith in
    rw set (new_flags_permit_small 1 flags (omega arith) h)

-- The state behind an attribute record that sets flags.
flags_set :
    (c : Catalog) (s : SecNew) (tag id v : ℕ)
    → security c id ≡ some s
    → (tag ≡ 0x0d) ⊎ (tag ≡ 0x0e)
    → (i : ℕ)
    → security (set_flags c tag id v) i
      ≡ (if i == id then some (record s { flags = new_flags tag v s.flags }) else security c i)
unfolding security set_flags
flags_set c s tag id v e which i = rw (e, set_flags) (by_tag which)
  where
    by_tag :
        (tag ≡ 0x0d) ⊎ (tag ≡ 0x0e)
        → find same_id i
            (if tag == 0x0d || tag == 0x0e
              then record c {
                secs = insert same_id id (record s { flags = new_flags tag v s.flags }) c.secs;
              }
              else c).secs
          ≡ (if i == id
              then some (record s { flags = new_flags tag v s.flags })
              else find same_id i c.secs)
    by_tag (inl t) = rw t (
        find-insert same_id same_id-IsEquality i id (record s { flags = new_flags 0x0d v s.flags })
          c.secs)
    by_tag (inr t) = rw t (
        find-insert same_id same_id-IsEquality i id (record s { flags = new_flags 0x0e v s.flags })
          c.secs)

-- R_SEC_ONOFF with a value below 4 sets the two low bits of the flags of its security, and
-- R_SEC_MKT_PERMIT the bit 2 by whether its value is 0; the other bits, the other fields and the other
-- securities are left alone. The security is one that the catalog has, and its flags are a byte.
pub apply_mutations-flags :
    (cp1251 : Bytes → Bytes) (c : Catalog) (s : SecNew) (a b v : ℕ)
    → security c (a * 256 + b) ≡ some s
    → s.flags < 256
    → (v < 4
        → (i : ℕ)
        → security (apply_mutations cp1251 c 0x0d (a ∷ b ∷ v ∷ [])).1 i ≡ (
            if i == a * 256 + b
            then some (record s { flags = s.flags / 4 * 4 + v })
            else security c i))
      × ((i : ℕ)
          → security (apply_mutations cp1251 c 0x0e (a ∷ b ∷ v ∷ [])).1 i ≡ (
              if i == a * 256 + b
              then some
                  (record s { flags = s.flags / 8 * 8 + (if v == 0 then 0 else 4) + s.flags % 4 })
              else security c i))
unfolding apply_mutations
apply_mutations-flags cp1251 c s a b v e byte = (
  λ low i.
      flags_set c s 0x0d (a * 256 + b) v e (inl refl) i
      ∙ ap (λ (f : ℕ). if i == a * 256 + b then some (record s { flags = f }) else security c i)
          (new_flags_low v s.flags low byte),
  λ i.
      flags_set c s 0x0e (a * 256 + b) v e (inr refl) i
      ∙ ap (λ (f : ℕ). if i == a * 256 + b then some (record s { flags = f }) else security c i)
          (new_flags_permit v s.flags byte),
)

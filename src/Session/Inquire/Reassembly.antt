-- ===== src/Session/Inquire/Reassembly.antt =====
-- A document that the server sends in chunks is put together again.
use txmlconnector.Common.{
  ℕ, ◌+◌, ◌^◌, ◌<◌, ◌≡◌, refl, sym, ap, ◌∙◌, arith, true, false, Option, some, List, [], ◌∷◌, ◌++◌,
  append_assoc, append-nil, Bytes,
}
use txmlconnector.Common.{length, length-append, All, leb, ==_refl, ok}
use txmlconnector.Wire.Words.{truncate32, IsWord32}
use txmlconnector.Wire.Reader.{byte, raw, int32}
use txmlconnector.Wire.Writer.{write_int32, write_raw}
use txmlconnector.Wire.Fields.{raw-write_raw}
use txmlconnector.Wire.Packed.{int32-write_int32}
use txmlconnector.Records.Parser.{◌>>=◌, ◌>>◌, pure}
use txmlconnector.Records.Parser.Local.{bind_again}
use txmlconnector.Session.Inquire.{
  not_positive32, biased, sized_chunk, read_chunk, inflated, asked, ended_with, inquire,
}

-- The reply with a chunk: a byte, the two sizes of the document, that of the chunk, and the chunk.
abbrev pub chunk_reply : ℕ → ℕ → ℕ → Bytes → Bytes
chunk_reply b full total bytes =
    b ∷ (write_int32 [] full ++ (write_int32 [] total ++ (write_int32 [] (length bytes) ++ bytes)))

abbrev pub replies : ℕ → ℕ → ℕ → List Bytes → List Bytes
replies b full total [] = []
replies b full total (c ∷ cs) = chunk_reply b full total c ∷ replies b full total cs

abbrev pub joined : List Bytes → Bytes
joined [] = []
joined (c ∷ cs) = c ++ joined cs

-- Where each of the chunks begins.
abbrev pub starts : ℕ → List Bytes → List ℕ
starts n [] = []
starts n (c ∷ cs) = n ∷ starts (n + length c) cs

positive : (n : ℕ) → 0 < n → n < 2 ^ 31 → not_positive32 n ≡ false
positive n h k = ground arith

biased_small : (n : ℕ) → n < 2 ^ 31 → biased n ≡ n + 2 ^ 31
biased_small n h = omega arith

raw_all : (b : Bytes) → raw (length b) b ≡ ok (b, [])
raw_all b = ap (raw (length b)) (sym (append-nil b)) ∙ unfold write_raw in raw-write_raw b []

sized_chunk_whole :
    (full total : ℕ) (bytes : Bytes)
    → not_positive32 (length bytes) ≡ false
    → not_positive32 total ≡ false
    → sized_chunk full total (length bytes) bytes
      ≡ ok (record { full = full; total = total; bytes = bytes }, [])
unfolding sized_chunk pure
sized_chunk_whole full total bytes e f =
    rw (e, f)
      (bind_again (raw (length bytes))
        (λ b. pure (record { full = full; total = total; bytes = b })) (raw_all bytes))

read_chunk_reply :
    (b full total : ℕ) (bytes : Bytes)
    → IsWord32 full
    → 0 < total
    → total < 2 ^ 31
    → 0 < length bytes
    → length bytes < 2 ^ 31
    → read_chunk (chunk_reply b full total bytes)
      ≡ ok (record { full = full; total = total; bytes = bytes }, [])
unfolding read_chunk byte ◌>>◌
read_chunk_reply b full total bytes hf pt ht pl hl =
    bind_again int32 (λ full. int32 >>= λ total. int32 >>= λ n. sized_chunk full total n)
      (int32-write_int32 full (write_int32 [] total ++ (write_int32 [] (length bytes) ++ bytes)) hf)
    ∙ bind_again int32 (λ total. int32 >>= λ n. sized_chunk full total n)
        (int32-write_int32 total (write_int32 [] (length bytes) ++ bytes) (omega (arith, ht)))
    ∙ bind_again int32 (sized_chunk full total)
        (int32-write_int32 (length bytes) bytes (omega (arith, hl)))
    ∙ sized_chunk_whole full total bytes (positive (length bytes) pl hl) (positive total pt ht)

not_yet :
    (total n : ℕ) → n < total → total < 2 ^ 31 → leb (biased total) (biased (truncate32 n)) ≡ false
not_yet total n h k =
    let small : truncate32 n ≡ n = omega arith in
    rw (small, biased_small total k, biased_small n (omega (arith, h, k))) (ground arith)

complete :
    (total n : ℕ) → n ≡ total → total < 2 ^ 31 → leb (biased total) (biased (truncate32 n)) ≡ true
complete total n h k =
    let small : truncate32 n ≡ n = omega (arith, h, k) in
    rw (small, h, biased_small total k) (ground arith)

module _ (inflate : Bytes → Option Bytes) (b full total : ℕ) (hf : IsWord32 full) (pt : 0 < total)
    (ht : total < 2 ^ 31) where
  -- A chunk that does not complete the document is followed by the next request.
  goes_on :
      (before c : Bytes) (others : List Bytes)
      → 0 < length c
      → length before + length c < total
      → inquire inflate before (chunk_reply b full total c ∷ others)
        ≡ asked (truncate32 (length before)) (inquire inflate (before ++ c) others)
  unfolding inquire
  goes_on before c others p l =
      rw (read_chunk_reply b full total c hf pt ht p (omega (arith, l, ht)), inquire)
        (rw (not_yet total (length (before ++ c)) (omega (arith, l, length-append before c)) ht))

  -- The chunk that completes it is the last.
  completes :
      (before c : Bytes) (others : List Bytes)
      → 0 < length c
      → length before + length c ≡ total
      → inquire inflate before (chunk_reply b full total c ∷ others)
        ≡ asked (truncate32 (length before)) (ended_with (inflated inflate full (before ++ c)))
  unfolding inquire
  completes before c others p l =
      rw (read_chunk_reply b full total c hf pt ht p (omega (arith, l, ht)), inquire)
        (rw (complete total (length (before ++ c)) (omega (arith, l, length-append before c)) ht))

  inflated_ok :
      (z doc : Bytes) → inflate z ≡ some doc → length doc ≡ full → inflated inflate full z ≡ ok doc
  unfolding inflated
  inflated_ok z doc e w =
      let small : truncate32 (length doc) ≡ full = omega (arith, hf, w) in
      rw (e, inflated) (rw small (rw (==_refl full)))

  collects :
      (before c : Bytes) (cs : List Bytes) (doc : Bytes)
      → All (λ c. 0 < length c) (c ∷ cs)
      → length (before ++ joined (c ∷ cs)) ≡ total
      → inflate (before ++ joined (c ∷ cs)) ≡ some doc
      → length doc ≡ full
      → inquire inflate before (replies b full total (c ∷ cs))
        ≡ record { offsets = starts (length before) (c ∷ cs); document = ok doc }
  collects before c [] doc (p, _) size found whole =
      let sizes = length-append before (c ++ []) in
      let len = ap {B = ℕ} length (append-nil c) in
      let small : truncate32 (length before) ≡ length before = omega (arith, sizes, size, ht) in
      completes before c [] p (omega (arith, sizes, len, size))
      ∙ ap (λ n. asked n (ended_with (inflated inflate full (before ++ c)))) small
      ∙ ap (λ d. asked (length before) (ended_with d))
          (inflated_ok (before ++ c) doc
            (ap (λ x. inflate (before ++ x)) (sym (append-nil c)) ∙ found) whole)
  collects before c (d ∷ cs) doc (p, ps) size found whole =
      let sizes = length-append before (c ++ joined (d ∷ cs)) in
      let sizes' = length-append c (d ++ joined cs) in
      let sizes'' = length-append d (joined cs) in
      let small : truncate32 (length before) ≡ length before = omega (arith, sizes, size, ht) in
      let same = append_assoc before c (joined (d ∷ cs)) in
      goes_on before c (replies b full total (d ∷ cs)) p
        (omega (arith, sizes, sizes', sizes'', size, ps.0))
      ∙ ap (λ n. asked n (inquire inflate (before ++ c) (replies b full total (d ∷ cs)))) small
      ∙ ap (asked (length before)) (
          collects (before ++ c) d cs doc ps (ap {B = ℕ} length same ∙ size)
            (ap inflate same ∙ found) whole
          ∙ ap (λ n. record { offsets = starts n (d ∷ cs); document = ok doc })
              (length-append before c))

-- A document whose compressed bytes, below 2^31 of them, come in chunks that are not empty, each with
-- the sizes of the document and its own, is returned, and each request asks for the bytes behind those
-- that have come.
pub inquire_reassembles :
    (inflate : Bytes → Option Bytes) (b : ℕ) (c : Bytes) (cs : List Bytes) (doc : Bytes)
    → All (λ x. 0 < length x) (c ∷ cs)
    → length (joined (c ∷ cs)) < 2 ^ 31
    → inflate (joined (c ∷ cs)) ≡ some doc
    → IsWord32 (length doc)
    → inquire inflate [] (replies b (length doc) (length (joined (c ∷ cs))) (c ∷ cs))
      ≡ record { offsets = starts 0 (c ∷ cs); document = ok doc }
inquire_reassembles inflate b c cs doc h l f w =
    collects inflate b (length doc) (length (joined (c ∷ cs))) w
      (omega (arith, h.0, length-append c (joined cs))) l [] c cs doc h refl f refl

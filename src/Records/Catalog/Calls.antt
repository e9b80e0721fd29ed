-- ===== src/Records/Catalog/Calls.antt =====
-- Sequences of calls of the methods that change a catalog.
use txmlconnector.Common.{ℕ, List, [], ◌∷◌, ◌++◌, Bytes}
use txmlconnector.Records.Securities.{SecNew}
use txmlconnector.Records.Catalog.{Catalog, add_security, drain_pending, apply_mutations}

-- `AddSecurity`, `ApplyMutations` with the tag and the body of a record, `DrainPending`.
pub data Call : Type 0 where
  add : SecNew → Call
  mutate : ℕ → Bytes → Call
  drain : Call

-- The state behind a call, and the securities that a drain returns.
unfoldable pub call : (Bytes → Bytes) → Catalog → Call → List SecNew × Catalog
call cp1251 c (add s) = ([], add_security c s)
call cp1251 c (mutate tag body) = ([], (apply_mutations cp1251 c tag body).1)
call cp1251 c drain = drain_pending c

-- The chunks of all drains, joined.
unfoldable pub calls : (Bytes → Bytes) → Catalog → List Call → List SecNew × Catalog
unfolding call
calls cp1251 c [] = ([], c)
calls cp1251 c (x ∷ xs) =
    let (chunk, c') = call cp1251 c x in
    let (chunks, c'') = calls cp1251 c' xs in (chunk ++ chunks, c'')

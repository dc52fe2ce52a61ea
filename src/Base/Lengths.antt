-- ===== src/Base/Lengths.antt =====
-- The length of texts that are put together.
use Prim.Native.Nat.{◌+◌}
use Prim.Native.String
use Prim.Native.String.{String}
use mathlib.Core.Path.{◌≡◌}
use native.Mathlib.Omega.{arith}
use text.Mathlib.TextLemmas
use public_nest_server.Base.Lists.{length}
use public_nest_server.Base.Texts.{codes}

pub length-codes :
    (s t : String) → length (codes (String.◌++◌ s t)) ≡ length (codes s) + length (codes t)
length-codes String.[] t = rw TextLemmas.nil-append (omega arith)
length-codes (String.◌∷◌ c s) t =
    let rest = length-codes s t in rw (TextLemmas.cons-append c s t) (ground arith)

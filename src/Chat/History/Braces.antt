-- ===== src/Chat/History/Braces.antt =====
-- The escaping of braces.
use Prim.Native.String as Text
use nora_fleet.Common.{ℕ, String, ◌≡◌, ◌≢◌, refl, Bool, true, false, arith}
use nora_fleet.Chat.History.{halve, double, escape}

-- Doubled characters are halved to what they were.
halve-double : (c : ℕ) (s : String) → halve c false (double c s) ≡ s
unfolding halve double
halve-double c Text.[] = refl
halve-double c (Text.◌∷◌ d s) = ground (arith, halve-double c s)

-- Halving one character does not see the doubling of another.
halve-double-other :
    (c e : ℕ) (seen : Bool) (s : String)
    → c ≢ e
    → halve c seen (double e s) ≡ double e (halve c seen s)
unfolding halve double
halve-double-other c e seen Text.[] n = refl
halve-double-other c e seen (Text.◌∷◌ d s) n =
    ground (arith, halve-double-other c e false s n, halve-double-other c e true s n)

-- Escaping the braces of a text that is escaped already changes nothing.
pub escape-escape : (text : String) → escape (escape text) ≡ escape text
unfolding escape
escape-escape text =
    let t = halve b'}' false (halve b'{' false text) in
    rw (
      halve-double-other b'{' b'}' false (double b'{' t) (omega arith),
      halve-double b'{' t,
      halve-double b'}' t,
    )

-- ===== src/Firmware/Request/Fifo.antt =====
-- An endpoint whose FIFO is the list of the bytes that are left.
use tedium.Common.{ℕ, ◌<◌, ◌≡◌, ◌≢◌, refl, List, [], ◌∷◌, All, u8, arith}
use tedium.Firmware.Request.{EndpointOut}

abbrev have : List ℕ → ℕ
have [] = 0
have (b ∷ bs) = 1

abbrev take_data : List ℕ → ℕ × List ℕ
take_data [] = (0, [])
take_data (b ∷ bs) = (b, bs)

abbrev Holds : List ℕ → List ℕ → Type 0
Holds s bytes = (s ≡ bytes) × All (λ b. b < 256) bytes

pub have-empty : (s : List ℕ) → Holds s [] → u8 (have s) ≡ 0
have-empty [] h = refl
have-empty (b ∷ bs) h = cc h.0

pub have-more : (s : List ℕ) (b : ℕ) (bs : List ℕ) → Holds s (b ∷ bs) → u8 (have s) ≢ 0
have-more [] b bs h = cc h.0
have-more (c ∷ s) b bs h = λ e. omega (arith, e)

pub take_data-first :
    (s : List ℕ) (b : ℕ) (bs : List ℕ)
    → Holds s (b ∷ bs)
    → (u8 (take_data s).0 ≡ b) × Holds (take_data s).1 bs
take_data-first [] b bs h = cc h.0
take_data-first (c ∷ s) b bs (e, (l, ls)) =
    let same : c ≡ b = cc e in let rest : s ≡ bs = cc e in (omega (arith, same, l), (rest, ls))

abbrev pub fifo : EndpointOut (List ℕ)
fifo = record {
  have = have;
  take_data = take_data;
  Holds = Holds;
  have-empty = have-empty;
  have-more = have-more;
  take_data-first = take_data-first;
}

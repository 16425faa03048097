-- ===== src/Serial/Tests.antt =====
-- Four bytes on the port, of which three go to address 1.
use ts_os.Base.{◌≡◌, ◌+◌, ◌/◌, [], ◌∷◌, arith, done, refl}
use ts_os.Base.Bytes.{replicate}
use ts_os.String.{Str}
use ts_os.Serial.{transfer}
use ts_os.Serial.Transfer.{transfer-take}

transfer-take_example :
    (buffer' : Str) × (transfer
        (2 + 3 / 255)
        (9 ∷ 9 ∷ 9 ∷ 9 ∷ 9 ∷ [])
        (replicate 256 0)
        (1 ∷ 2 ∷ 3 ∷ 4 ∷ [])
        1
        3
        0
      ≡ done (3, 9 ∷ 1 ∷ 2 ∷ 3 ∷ 9 ∷ [], buffer', 4 ∷ []))
transfer-take_example =
    transfer-take 3 1 (9 ∷ 9 ∷ 9 ∷ 9 ∷ 9 ∷ []) (replicate 256 0) (1 ∷ 2 ∷ 3 ∷ 4 ∷ []) refl
      (omega arith) (omega arith) (omega arith) (omega arith)

-- ===== src/Serial/Transfer.antt =====
-- The loop that receives a file over the serial port in drivers/com.c.
use ts_os.Base.{
  ℕ, zero, suc, ◌+◌, ◌-◌, ◌*◌, ◌/◌, ◌^◌, ◌≤◌, ◌<◌, ◌≡◌, refl, sym, ◌∙◌, ap, true, false, Bool-cases,
  inl, inr, ◌⊎◌, ◌||◌, [], ◌∷◌, ◌++◌, length, set, arith, ◌==◌, leb, ltb, u32, sub32, done, ◌>>=◌,
}
use mathlib.Core.List.{append_assoc}
use ts_os.Base.Bytes.{take, drop, length-take, length-append, bytes_at}
use ts_os.Base.Parts.{
  length-drop, take_add, drop-drop, take-front, bytes_at-inside, put_bytes-joined,
}
use ts_os.String.{Str}
use ts_os.Serial.{read_serial, store, receive, read_bytes, transfer, buf_size}

store-joined :
    (front old : Str) (d c : ℕ)
    → store (front ++ d ∷ old) (length front) c ≡ done (front ++ c ∷ old)
unfolding store
store-joined front old d c =
    let inside : ltb (length front) (length (front ++ d ∷ old)) ≡ true =
      ground (arith, length-append front (d ∷ old)) in
    rw inside (ap done (set-joined front))
  where
    set-joined : (xs : Str) → set (xs ++ d ∷ old) (length xs) c ≡ xs ++ c ∷ old
    set-joined [] = refl
    set-joined (x ∷ xs) = ap (λ (l : Str). x ∷ l) (set-joined xs)

-- `m` bytes that have come, up to the end of what is wanted or of the buffer
receive-take :
    (k m total : ℕ) (front old port : Str)
    → m < k
    → (length front + m ≡ total) ⊎ (length front + m ≡ 255)
    → length front + m ≤ total
    → length front + m ≤ 255
    → m < length old
    → m ≤ length port
    → receive k (front ++ old) port 256 total (length front)
      ≡ done (length front + m, front ++ (take m port ++ drop m old), drop m port)
unfolding receive read_serial
receive-take zero m total front old port fuel stops wanted fits room come = absurd (omega arith)
receive-take (suc k) zero total front old port fuel stops wanted fits room come =
    let stop : ((length front == total) || (length front == 255)) ≡ true = ground arith in
    let at : length front + 0 ≡ length front = omega arith in rw (receive, stop, at) refl
receive-take (suc k) (suc m) total front [] port fuel stops wanted fits room come =
    absurd (omega arith)
receive-take (suc k) (suc m) total front (d ∷ old) [] fuel stops wanted fits room come =
    absurd (omega arith)
receive-take (suc k) (suc m) total front (d ∷ old) (c ∷ port) fuel stops wanted fits room come =
    let go : ((length front == total) || (length front == 255)) ≡ false = ground arith in
    let count : length (front ++ c ∷ []) ≡ length front + 1 = length-append front (c ∷ []) in
    let word : u32 (length front + 1) ≡ length (front ++ c ∷ []) = omega arith in
    let sum : length (front ++ c ∷ []) + m ≡ length front + suc m = omega arith in
    let stops' : (length (front ++ c ∷ []) + m ≡ total) ⊎ (length (front ++ c ∷ []) + m ≡ 255) =
      elim stops [ inl e ↦ inl (omega arith) | inr e ↦ inr (omega arith) ] in
    let buf : front ++ c ∷ old ≡ (front ++ c ∷ []) ++ old = sym (append_assoc front (c ∷ []) old) in
    rw
      (
        receive,
        go,
        store-joined front old d c,
        ◌>>=◌,
        word,
        buf,
        receive-take k m total (front ++ c ∷ []) old port (omega arith) stops' (omega arith)
            (omega arith) (omega arith) (omega arith),
        sum,
        append_assoc front (c ∷ []) (take m port ++ drop m old),
      )
      refl

uncons : (xs : Str) → 0 < length xs → (x : ℕ) × (ys : Str) × (xs ≡ x ∷ ys)
uncons [] pos = absurd (omega arith)
uncons (x ∷ xs) pos = (x, xs, refl)

read_bytes-ended :
    (n total d : ℕ) (buf port rest : Str)
    → drop n buf ≡ d ∷ rest
    → length (take n port) ≡ n
    → receive 256 buf port 256 total 0 ≡ done (n, take n port ++ drop n buf, drop n port)
    → read_bytes buf port 256 total ≡ done (n, take n port ++ 0 ∷ rest, drop n port)
unfolding read_bytes
read_bytes-ended n total d buf port rest e taken runs =
    let ended : store (take n port ++ d ∷ rest) n 0 ≡ done (take n port ++ 0 ∷ rest) =
      ap (λ (i : ℕ). store (take n port ++ d ∷ rest) i 0) (sym taken)
      ∙ store-joined (take n port) rest d 0 in
    rw (runs, ◌>>=◌, e, ended) refl

-- The buffer holds the bytes and a zero behind them.
read_bytes-take :
    (n total : ℕ) (buf port : Str)
    → length buf ≡ 256
    → (n ≡ total) ⊎ (n ≡ 255)
    → n ≤ total
    → n ≤ 255
    → n ≤ length port
    → (rest : Str) × (read_bytes buf port 256 total
        ≡ done (n, take n port ++ 0 ∷ rest, drop n port))
      × (n + suc (length rest) ≡ 256)
read_bytes-take n total buf port size stops wanted fits come =
    let left : length (drop n buf) ≡ 256 - n = omega (arith, length-drop n buf) in
    let (d, rest, e) = uncons (drop n buf) (omega arith) in
    let count : suc (length rest) ≡ 256 - n = sym (ap length e) ∙ left in
    let zeroth : 0 + n ≡ n = omega arith in
    let stops' : (0 + n ≡ total) ⊎ (0 + n ≡ 255) = elim stops [
      | inl q ↦ inl (omega arith)
      | inr q ↦ inr (omega arith)
    ] in
    let runs =
      receive-take 256 n total [] buf port (omega arith) stops' (omega arith) (omega arith)
        (omega arith) come in
    let from_start : receive 256 buf port 256 total 0
        ≡ done (n, take n port ++ drop n buf, drop n port) =
      runs ∙ rw zeroth refl in
    (
      rest,
      read_bytes-ended n total d buf port rest e (length-take n port come) from_start,
      omega arith,
    )

transfer-stop :
    (k : ℕ) (mem buf port : Str) (mem_addr total : ℕ)
    → transfer (suc k) mem buf port mem_addr total total ≡ done (total, mem, buf, port)
unfolding transfer
transfer-stop k mem buf port mem_addr total =
    let stop : ltb total total ≡ false = ground arith in rw (transfer, stop) refl

transfer-round :
    (k : ℕ) (front old buf port rest : Str) (mem_addr total rx left n : ℕ)
    → ltb rx total ≡ true
    → sub32 total rx ≡ left
    → u32 (mem_addr + rx) ≡ length front
    → u32 (rx + n) ≡ rx + n
    → n ≤ length old
    → n ≤ length port
    → n + suc (length rest) ≡ 256
    → read_bytes buf port buf_size left ≡ done (n, take n port ++ 0 ∷ rest, drop n port)
    → transfer (suc k) (front ++ old) buf port mem_addr total rx
      ≡ transfer k
          (front ++ (take n port ++ drop n old))
          (take n port ++ 0 ∷ rest)
          (drop n port)
          mem_addr
          total
          (rx + n)
unfolding transfer
transfer-round k front old buf port rest mem_addr total rx left n go more at next room come size
      runs =
    let taken : length (take n port) ≡ n = length-take n port come in
    let bytes : bytes_at (take n port ++ 0 ∷ rest) 0 n ≡ done (take n port) =
      bytes_at-inside (take n port ++ 0 ∷ rest) 0 n
        (omega (arith, length-append (take n port) (0 ∷ rest)))
      ∙ ap done (
          ap (λ (i : ℕ). take i (take n port ++ 0 ∷ rest)) (sym taken)
          ∙ take-front (take n port) (0 ∷ rest)) in
    let put = put_bytes-joined front old (take n port) (omega arith) in
    rw (transfer, go, more, runs, ◌>>=◌, bytes, ◌>>=◌, at, put, taken, next) refl

-- the bytes that a round takes
round_size :
    (left : ℕ)
    → (n : ℕ) × ((n ≡ left) ⊎ (n ≡ 255))
      × (n ≤ left)
      × (n ≤ 255)
      × ((k : ℕ) → left ≤ 255 * suc k → left - n ≤ 255 * k)
round_size left = elim (Bool-cases (leb left 255)) [
  | inl all ↦ (left, inl refl, omega arith, ground arith, λ k le. omega arith)
  | inr more ↦ (255, inr refl, ground arith, omega arith, λ k le. omega arith)
]

-- two copies behind each other
joined_copies :
    (front port old : Str) (n m : ℕ)
    → (front ++ take n port) ++ (take m (drop n port) ++ drop m (drop n old))
      ≡ front ++ (take (n + m) port ++ drop (n + m) old)
joined_copies front port old n m =
    append_assoc front (take n port) (take m (drop n port) ++ drop m (drop n old))
    ∙ ap (λ (l : Str). front ++ l)
        (sym (append_assoc (take n port) (take m (drop n port)) (drop m (drop n old)))
          ∙ rw (← take_add n m port, drop-drop n m old) refl)

transfer_rounds :
    (k left : ℕ) (front old buf port : Str) (mem_addr rx : ℕ)
    → length front ≡ mem_addr + rx
    → mem_addr + rx + left ≤ 2 ^ 32
    → rx + left < 2 ^ 32
    → left ≤ 255 * k
    → left ≤ length old
    → left ≤ length port
    → length buf ≡ 256
    → (buf' : Str) × (transfer (suc k) (front ++ old) buf port mem_addr (rx + left) rx
        ≡ done (rx + left, front ++ (take left port ++ drop left old), buf', drop left port))
transfer_rounds k zero front old buf port mem_addr rx at word small rounds room come size =
    let sum : rx + 0 ≡ rx = omega arith in
    (buf, rw sum (transfer-stop k (front ++ old) buf port mem_addr rx))
transfer_rounds zero (suc left) front old buf port mem_addr rx at word small rounds room come size =
    absurd (omega arith)
transfer_rounds (suc k) (suc left) front old buf port mem_addr rx at word small rounds room come
      size =
    let (n, stops, wanted, fits, later) = round_size (suc left) in
    let m = suc left - n in
    let (rest, runs, count) =
      read_bytes-take n (suc left) buf port size stops wanted fits (omega arith) in
    let taken : length (take n port) ≡ n = length-take n port (omega arith) in
    let first =
      transfer-round (suc k) front old buf port rest mem_addr (rx + suc left) rx (suc left) n
        (ground arith) (omega arith) (omega arith) (omega arith) (omega arith) (omega arith) count
        runs in
    let (buf', more) =
      transfer_rounds k m (front ++ take n port) (drop n old) (take n port ++ 0 ∷ rest)
        (drop n port) mem_addr (rx + n) (omega (arith, length-append front (take n port)))
        (omega arith) (omega arith) (later k rounds) (omega (arith, length-drop n old))
        (omega (arith, length-drop n port))
        (omega (arith, length-append (take n port) (0 ∷ rest))) in
    let sum : rx + n + m ≡ rx + suc left = omega arith in
    let amount : n + m ≡ suc left = omega arith in
    (
      buf',
      first
          ∙ ap
              (λ (mem : Str).
                transfer (suc k) mem (take n port ++ 0 ∷ rest) (drop n port) mem_addr
                  (rx + suc left) (rx + n))
              (sym (append_assoc front (take n port) (drop n old)))
          ∙ ap
              (λ (all : ℕ).
                transfer (suc k) ((front ++ take n port) ++ drop n old) (take n port ++ 0 ∷ rest)
                  (drop n port) mem_addr all (rx + n))
              (sym sum)
          ∙ more
          ∙ rw (sum, joined_copies front port old n m, drop-drop n m port, amount) refl,
    )

take-drop : (n : ℕ) (xs : Str) → take n xs ++ drop n xs ≡ xs
take-drop zero xs = refl
take-drop (suc n) [] = refl
take-drop (suc n) (x ∷ xs) = ap (λ (l : Str). x ∷ l) (take-drop n xs)

-- When the bytes that are expected, fewer than 2 ^ 32, come on the port and a memory of at most
-- 2 ^ 32 bytes has room for them, the loop that receives a file ends within its rounds and stays inside its buffer of 256 bytes: memory then has
-- exactly these bytes, in their order, from `mem_addr` on and is as before elsewhere, and the port
-- has the rest.
pub transfer-take :
    (expected mem_addr : ℕ) (mem buffer port : Str)
    → length buffer ≡ 256
    → mem_addr + expected ≤ length mem
    → length mem ≤ 2 ^ 32
    → expected < 2 ^ 32
    → expected ≤ length port
    → (buffer' : Str) × (transfer (2 + expected / 255) mem buffer port mem_addr expected 0
        ≡ done (
          expected,
          take mem_addr mem ++ (take expected port ++ drop (mem_addr + expected) mem),
          buffer',
          drop expected port,
        ))
transfer-take expected mem_addr mem buffer port size room fits small come =
    let front = take mem_addr mem in
    let old = drop mem_addr mem in
    let at : length front ≡ mem_addr = length-take mem_addr mem (omega arith) in
    let (buffer', runs) =
      transfer_rounds (1 + expected / 255) expected front old buffer port mem_addr 0 (omega arith)
        (omega arith) (omega arith) (omega arith) (omega (arith, length-drop mem_addr mem)) come
        size in
    let rounds : suc (1 + expected / 255) ≡ 2 + expected / 255 = omega arith in
    let zeroth : 0 + expected ≡ expected = omega arith in
    (buffer', rw (take-drop mem_addr mem, zeroth, rounds, drop-drop mem_addr expected mem) at runs)

-- ===== src/Serial.antt =====
-- drivers/com.c: the transfer of a file over the serial port. The port is the list of the bytes that
-- are still to come; waiting for a byte that never comes is `halted`. Memory is the list of its bytes
-- from address 0 on, and the buffer on the stack is not in the part that is written.
pub mod Transfer
mod Tests
use ts_os.Base.{
  ℕ, zero, suc, ◌+◌, ◌-◌, ◌/◌, ◌%◌, true, false, ◌||◌, List, [], ◌∷◌, length, set, fault, ◌==◌, ltb,
  if◌then◌else◌, u32, sub32, Outcome, done, halted, out_of_fuel, ◌>>=◌,
}
use ts_os.Base.Bytes.{replicate, bytes_at, put_bytes}
use ts_os.String.{Str, atoi}
use ts_os.Console.Output.{Terminal}
use ts_os.Print.{printstr, printl, print_hex}

-- "start to transfer file"
abbrev start_text : Str
start_text =
    115 ∷ 116 ∷ 97 ∷ 114 ∷ 116 ∷ 32 ∷ 116 ∷ 111 ∷ 32 ∷ 116 ∷ 114 ∷ 97 ∷ 110 ∷ 115 ∷ 102 ∷ 101 ∷ 114
    ∷ 32 ∷ 102 ∷ 105 ∷ 108 ∷ 101 ∷ 0 ∷ []

-- "expected "
abbrev expected_text : Str
expected_text = 101 ∷ 120 ∷ 112 ∷ 101 ∷ 99 ∷ 116 ∷ 101 ∷ 100 ∷ 32 ∷ 0 ∷ []

-- " bytes"
abbrev bytes_text : Str
bytes_text = 32 ∷ 98 ∷ 121 ∷ 116 ∷ 101 ∷ 115 ∷ 0 ∷ []

-- "recieved "
abbrev recieved_text : Str
recieved_text = 114 ∷ 101 ∷ 99 ∷ 105 ∷ 101 ∷ 118 ∷ 101 ∷ 100 ∷ 32 ∷ 0 ∷ []

-- the size of the buffer
abbrev pub buf_size : ℕ
buf_size = 256

pub read_serial : List ℕ → Outcome (ℕ × List ℕ)
read_serial [] = halted
read_serial (c ∷ port) = done (c, port)

-- `buf[i] = c`
unfoldable pub store : Str → (i c : ℕ) → Outcome Str
store buf i c = if ltb i (length buf) then done (set buf i c) else fault

-- the loop of `read_until` from `rx_cnt` on: the count, the buffer and what is left on the port
unfoldable pub receive_until :
    ℕ → Str → List ℕ → (size end_char rx_cnt : ℕ) → Outcome (ℕ × Str × List ℕ)
receive_until zero buf port size end_char rx_cnt = out_of_fuel
receive_until (suc k) buf port size end_char rx_cnt = elim (rx_cnt == sub32 size 1) [
  | true ↦ done (rx_cnt, buf, port)
  | false ↦ read_serial port >>= λ (c, port'). store buf rx_cnt c >>= λ buf'. elim (c == end_char) [
    | true ↦ done (u32 (rx_cnt + 1), buf', port')
    | false ↦ receive_until k buf' port' size end_char (u32 (rx_cnt + 1))
  ]
]

-- A round for each place of the buffer; the last one ends the loop.
unfoldable pub read_until : Str → List ℕ → (size end_char : ℕ) → Outcome (ℕ × Str × List ℕ)
read_until buf port size end_char =
    receive_until size buf port size end_char 0 >>= λ (rx_cnt, buf', port').
    store buf' rx_cnt 0 >>= λ buf''. done (rx_cnt, buf'', port')

-- the loop of `read_bytes`
unfoldable pub receive : ℕ → Str → List ℕ → (size total rx_cnt : ℕ) → Outcome (ℕ × Str × List ℕ)
receive zero buf port size total rx_cnt = out_of_fuel
receive (suc k) buf port size total rx_cnt = elim ((rx_cnt == total) || (rx_cnt == sub32 size 1)) [
  | true ↦ done (rx_cnt, buf, port)
  | false ↦ read_serial port >>= λ (c, port').
      store buf rx_cnt c >>= λ buf'. receive k buf' port' size total (u32 (rx_cnt + 1))
]

unfoldable pub read_bytes : Str → List ℕ → (size total : ℕ) → Outcome (ℕ × Str × List ℕ)
read_bytes buf port size total = receive size buf port size total 0 >>= λ (rx_cnt, buf', port').
    store buf' rx_cnt 0 >>= λ buf''. done (rx_cnt, buf'', port')

-- The loop of `serial_file_transfer`: the total, the memory, the buffer and what is left on the port.
unfoldable pub transfer :
    ℕ
    → (mem buffer : Str) → List ℕ
    → (mem_addr expected_bytes rx_total : ℕ) → Outcome (ℕ × Str × Str × List ℕ)
transfer zero mem buffer port mem_addr expected_bytes rx_total = out_of_fuel
transfer (suc k) mem buffer port mem_addr expected_bytes rx_total =
    elim (ltb rx_total expected_bytes) [
      | false ↦ done (rx_total, mem, buffer, port)
      | true ↦
          read_bytes buffer port buf_size (sub32 expected_bytes rx_total)
          >>= λ (rx_cnt, buffer', port'). bytes_at buffer' 0 rx_cnt >>= λ bytes.
              put_bytes mem (u32 (mem_addr + rx_total)) bytes >>= λ mem'.
              transfer k mem' buffer' port' mem_addr expected_bytes (u32 (rx_total + rx_cnt))
    ]

-- The number of bytes comes first, as a string. The result has their number, the memory, the rest of
-- the port and the terminal. A round takes 255 bytes, or all that are missing.
unfoldable pub serial_file_transfer :
    Terminal → Str → List ℕ → (mem_addr : ℕ) → Outcome (ℕ × Str × List ℕ × Terminal)
serial_file_transfer t mem port mem_addr = printl t start_text >>= λ t1.
    read_until (replicate buf_size 0) port buf_size 0 >>= λ (_, buffer, port1).
    atoi buffer 10 >>= λ expected_bytes. printstr t1 expected_text >>= λ t2.
    print_hex t2 expected_bytes >>= λ t3. printl t3 bytes_text >>= λ t4.
    transfer (2 + expected_bytes / 255) mem buffer port1 mem_addr expected_bytes 0
    >>= λ (rx_total, mem', _, port2). printstr t4 recieved_text >>= λ t5.
        print_hex t5 rx_total >>= λ t6.
        printl t6 bytes_text >>= λ t7. done (rx_total, mem', port2, t7)

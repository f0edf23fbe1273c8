-- ===== src/Supervisor/Head.antt =====
-- packages/supervisor/src/head.ts: reading the header block of a connection before it is routed. A
-- buffer is the list of its bytes. `readHead` is a machine over the events of the socket and of its
-- timer; events that follow the one that settles it find no listener.
pub mod Scan
pub mod Keeps
pub mod SessionId
use serverless_harness.Base.{
  ℕ, zero, suc, ◌+◌, ◌-◌, Bool, true, false, ◌&&◌, ◌||◌, Option, none, some, List, [], ◌∷◌, ◌++◌,
  map, leb, nat_beq, if◌then◌else◌, length, drop, take, reverse, not, text_beq,
}

abbrev pub Bytes : Type 0
Bytes = List ℕ

-- The buffer begins with CRLFCRLF.
unfoldable pub at_terminator : Bytes → Bool
at_terminator (a ∷ b ∷ c ∷ d ∷ rest) =
    (nat_beq a 13 && nat_beq b 10) && (nat_beq c 13 && nat_beq d 10)
at_terminator rest = false

-- `indexOf(TERMINATOR)` and the length of it, `none` for -1.
unfoldable pub header_block_end : Bytes → Option ℕ
unfolding at_terminator
header_block_end [] = none
header_block_end (b ∷ bs) =
    let later = header_block_end bs in
    if at_terminator (b ∷ bs) then some 4 else elim later [ none ↦ none | some n ↦ some (suc n) ]

unfoldable pub has_terminator : Bytes → Bool
unfolding header_block_end
has_terminator bs = elim (header_block_end bs) [ none ↦ false | some n ↦ true ]

pub data HeadOutcome : Type 0 where
  complete cap timeout closed : HeadOutcome

-- `bytes` are the chunks received, joined.
pub record Reader : Type 0 where
  pub bytes : Bytes
  pub total : ℕ
  pub carry : Bytes
  pub outcome : Option HeadOutcome

abbrev pub start : Reader
start = record { bytes = []; total = 0; carry = []; outcome = none }

pub data SocketEvent : Type 0 where
  chunk : Bytes → SocketEvent
  end : SocketEvent
  error : SocketEvent
  timer : SocketEvent

unfoldable pub on_data : ℕ → Bytes → Reader → Reader
unfolding has_terminator
on_data max_bytes c r =
    let total = r.total + length c in
    let probe = r.carry ++ c in
    let got = record r { bytes = r.bytes ++ c; total = total } in
    if has_terminator probe then record got { outcome = some complete } else record got {
      carry = drop (length probe - 3) probe;
      outcome = if leb max_bytes total then some cap else none;
    }

unfoldable pub on_event : ℕ → SocketEvent → Reader → Reader
unfolding on_data
on_event max_bytes (chunk c) r = on_data max_bytes c r
on_event max_bytes end r = record r { outcome = some closed }
on_event max_bytes error r = record r { outcome = some closed }
on_event max_bytes timer r = record r { outcome = some timeout }

unfoldable pub live_event : Option HeadOutcome → ℕ → SocketEvent → Reader → Reader
unfolding on_event
live_event none max_bytes e r = on_event max_bytes e r
live_event (some o) max_bytes e r = r

unfoldable pub read_head : ℕ → List SocketEvent → Reader → Reader
unfolding live_event
read_head max_bytes [] r = r
read_head max_bytes (e ∷ es) r = read_head max_bytes es (live_event r.outcome max_bytes e r)

-- `String.prototype.trim` over latin1: the white space among the first 256 code points.
abbrev pub is_space : ℕ → Bool
is_space c = (leb 9 c && leb c 13) || (nat_beq c 32 || nat_beq c 160)

unfoldable pub trim_start : Bytes → Bytes
trim_start [] = []
trim_start (c ∷ cs) = let rest = trim_start cs in if is_space c then rest else c ∷ cs

unfoldable pub trim : Bytes → Bytes
unfolding trim_start
trim s = reverse (trim_start (reverse (trim_start s)))

-- `toLowerCase` over latin1.
unfoldable pub to_lower : ℕ → ℕ
to_lower c =
    if leb 65 c && leb c 90 || (leb 192 c && leb c 222) && not (nat_beq c 215) then c + 32 else c

abbrev pub cons_first : ℕ → List Bytes → List Bytes
cons_first c [] = (c ∷ []) ∷ []
cons_first c (l ∷ ls) = (c ∷ l) ∷ ls

-- `split('\r\n')`.
unfoldable pub split_lines : Bytes → List Bytes
split_lines [] = [] ∷ []
split_lines (a ∷ []) = (a ∷ []) ∷ []
split_lines (a ∷ b ∷ cs) =
    let ended = [] ∷ split_lines cs in
    let longer = cons_first a (split_lines (b ∷ cs)) in
    if nat_beq a 13 && nat_beq b 10 then ended else longer

-- `indexOf(':')`.
unfoldable pub index_of_colon : Bytes → Option ℕ
index_of_colon [] = none
index_of_colon (c ∷ cs) =
    let later = index_of_colon cs in
    if nat_beq c b':' then some 0 else elim later [ none ↦ none | some n ↦ some (suc n) ]

abbrev pub header_name : Bytes
header_name =
    b'x' ∷ b'-' ∷ b's' ∷ b'h' ∷ b'-' ∷ b's' ∷ b'e' ∷ b's' ∷ b's' ∷ b'i' ∷ b'o' ∷ b'n' ∷ b'-' ∷ b'i'
    ∷ b'd' ∷ []

abbrev pub non_empty : Bytes → Option Bytes
non_empty [] = none
non_empty (c ∷ cs) = some (c ∷ cs)

-- What one line says: not this header, or this header with its value.
unfoldable pub header_value : Bytes → Option (Option Bytes)
unfolding index_of_colon to_lower trim text_beq
header_value line = elim (index_of_colon line) [
  | none ↦ none
  | some colon ↦
      if text_beq (map to_lower (trim (take colon line))) header_name
      then some (non_empty (trim (drop (suc colon) line)))
      else none
]

unfoldable pub session_id_in : List Bytes → Option Bytes
unfolding header_value
session_id_in [] = none
session_id_in (line ∷ lines) =
    let rest = session_id_in lines in elim (header_value line) [ none ↦ rest | some value ↦ value ]

abbrev pub header_block : Bytes → Option ℕ → Bytes
header_block head none = head
header_block head (some n) = take n head

unfoldable pub session_id_from_head : Bytes → Option Bytes
unfolding header_block_end split_lines session_id_in
session_id_from_head head =
    session_id_in (drop 1 (split_lines (header_block head (header_block_end head))))

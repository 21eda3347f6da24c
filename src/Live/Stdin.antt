-- ===== src/Live/Stdin.antt =====
-- The standard-input reader of src/live_runtime.rs: StdinLineDecoder and the loop of its thread.
-- What the operating system answers in one round of the loop is a turn of a script, and a String is
-- the bytes that `String::from_utf8`, the parameter `utf8`, accepts.
pub mod Feed
pub mod Chunks
use samara.Prelude.{
  ℕ, String, Bool, true, false, ◌||◌, Option, none, some, List, [], ◌∷◌, ◌++◌, ◌==◌, is_nil,
  if◌then◌else◌,
}
use samara.Live.State.{Reason}

abbrev pub newline : ℕ
newline = 10

abbrev pub carriage_return : ℕ
carriage_return = 13

abbrev pub Bytes : Type 0
Bytes = List ℕ

-- StdinError, with its kind.
pub data StdinError : Type 0 where
  invalid_utf8 : StdinError
  read_failed : String → StdinError

pub data StdinReaderEvent : Type 0 where
  line : Bytes → StdinReaderEvent
  failed : StdinError → StdinReaderEvent
  ended cancelled : StdinReaderEvent

-- The split one byte earlier.
unfoldable pub split_step : ℕ → Bytes → Option (Bytes × Bytes) → Option (Bytes × Bytes)
split_step b bs (some (complete, rest)) = some (b ∷ complete, rest)
split_step b bs none = if b == newline then some (b ∷ [], bs) else none

-- `rposition` of the newline, with the split after it.
unfoldable pub split_last : Bytes → Option (Bytes × Bytes)
unfolding split_step
split_last [] = none
split_last (b ∷ bs) = split_step b bs (split_last bs)

abbrev pub without_last : Bytes → Bytes
without_last [] = []
without_last (b ∷ []) = []
without_last (b ∷ c ∷ rest) = b ∷ without_last (c ∷ rest)

-- `split_inclusive` at the newlines, each piece without its last byte.
unfoldable pub cut_lines : Bytes → Bytes → List Bytes
cut_lines current [] = if is_nil current then [] else without_last current ∷ []
cut_lines current (b ∷ bs) =
    let next = cut_lines [] bs in
    let longer = cut_lines (current ++ b ∷ []) bs in if b == newline then current ∷ next else longer

-- `strip_suffix(b"\r")`, or the line itself.
unfoldable pub strip_return : Bytes → Bytes
strip_return [] = []
strip_return (b ∷ []) = if b == carriage_return then [] else b ∷ []
strip_return (b ∷ c ∷ rest) = b ∷ strip_return (c ∷ rest)

-- What one round of the reader's loop meets: the outcome of the wait, then that of the read.
pub data StdinTurn : Type 0 where
  cancel_ready : StdinTurn
  wait_failed : StdinError → StdinTurn
  mechanism_failed : String → StdinTurn
  interrupted : StdinTurn
  read_error : StdinError → StdinTurn
  end_of_input : StdinTurn
  bytes_read : Bytes → StdinTurn

abbrev pub is_terminal_event : StdinReaderEvent → Bool
is_terminal_event (StdinReaderEvent.line l) = false
is_terminal_event (StdinReaderEvent.failed e) = true
is_terminal_event StdinReaderEvent.ended = true
is_terminal_event StdinReaderEvent.cancelled = false

-- `send_stdin_events`: what is sent, to a receiver that is there or gone, and whether to go on.
unfoldable pub send_stdin_events : Bool → List StdinReaderEvent → List StdinReaderEvent × Bool
send_stdin_events there [] = ([], true)
send_stdin_events there (event ∷ rest) =
    let (sent, more) = send_stdin_events there rest in
    if there
    then (if is_terminal_event event then (event ∷ [], false) else (event ∷ sent, more))
    else ([], false)

module _ (utf8 : Bytes → Bool) where
  -- The loop over the complete lines; `false` is its `break`, which clears what is pending.
  unfoldable pub decode_lines : List Bytes → Bool × List StdinReaderEvent
  unfolding strip_return
  decode_lines [] = (true, [])
  decode_lines (encoded ∷ rest) =
      let decoded = strip_return encoded in
      let (clean, events) = decode_lines rest in
      if utf8 decoded
      then (clean, StdinReaderEvent.line decoded ∷ events)
      else (false, StdinReaderEvent.failed StdinError.invalid_utf8 ∷ [])

  -- What `push` makes of the complete lines and the rest after them.
  unfoldable pub settle_lines : List Bytes → Bytes → Bytes × List StdinReaderEvent
  unfolding decode_lines
  settle_lines lines rest =
      let (clean, events) = decode_lines lines in (if clean then rest else [], events)

  -- StdinLineDecoder::push.
  unfoldable pub push_bytes : Bytes → Bytes → Bytes × List StdinReaderEvent
  unfolding split_last cut_lines settle_lines
  push_bytes pending bytes = elim (split_last bytes) [
    | none ↦ (pending ++ bytes, [])
    | some split ↦ settle_lines (cut_lines [] (pending ++ split.0)) split.1
  ]

  -- StdinLineDecoder::finish.
  unfoldable pub finish_bytes : Bytes → List StdinReaderEvent
  finish_bytes pending =
      if is_nil pending
      then StdinReaderEvent.ended ∷ []
      else if utf8 pending
      then StdinReaderEvent.line pending ∷ StdinReaderEvent.ended ∷ []
      else StdinReaderEvent.failed StdinError.invalid_utf8 ∷ []

  -- `drive_stdin_reader` with a receiver that stays: the events sent, and its result when it returns
  -- within the script.
  unfoldable pub drive_stdin_reader : Bytes → List StdinTurn → List StdinReaderEvent × Option Reason
  unfolding push_bytes finish_bytes send_stdin_events
  drive_stdin_reader pending [] = ([], none)
  drive_stdin_reader pending (StdinTurn.cancel_ready ∷ turns) =
      (StdinReaderEvent.cancelled ∷ [], some none)
  drive_stdin_reader pending (StdinTurn.wait_failed e ∷ turns) =
      (StdinReaderEvent.failed e ∷ [], some none)
  drive_stdin_reader pending (StdinTurn.mechanism_failed reason ∷ turns) = ([], some (some reason))
  drive_stdin_reader pending (StdinTurn.interrupted ∷ turns) = drive_stdin_reader pending turns
  drive_stdin_reader pending (StdinTurn.read_error e ∷ turns) =
      (StdinReaderEvent.failed e ∷ [], some none)
  drive_stdin_reader pending (StdinTurn.end_of_input ∷ turns) =
      ((send_stdin_events true (finish_bytes pending)).0, some none)
  drive_stdin_reader pending (StdinTurn.bytes_read bytes ∷ turns) =
      let (after, events) = push_bytes pending bytes in
      let (sent, more) = send_stdin_events true events in
      let (rest, result) = drive_stdin_reader after turns in
      if more then (sent ++ rest, result) else (sent, some none)

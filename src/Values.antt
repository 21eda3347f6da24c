-- ===== src/Values.antt =====
-- Values that cross the erased boundaries of src/lib.rs. The payloads of every Rust type are drawn
-- from one type `V`; a `TypeId` tells the Rust types apart, and a downcast compares it. An
-- `Arc<()>` that names a Program is its address, and `Arc::ptr_eq` compares addresses.
use samara.Prelude.{
  ℕ, ◌+◌, ◌-◌, ◌*◌, ◌^◌, ◌≡◌, String, Bool, true, false, ◌&&◌, ◌==◌, leb, if◌then◌else◌, Option,
  none, some, arith,
}

abbrev pub TypeId : Type 0
TypeId = ℕ

abbrev pub TypeName : Type 0
TypeName = String

abbrev pub ProgramRef : Type 0
ProgramRef = ℕ

-- Nanoseconds. A Duration holds at most u64::MAX seconds and 999_999_999 nanoseconds.
abbrev pub Duration : Type 0
Duration = ℕ

abbrev pub duration_max : Duration
duration_max = 2 ^ 64 * 1_000_000_000 - 1

-- Duration::checked_add.
unfoldable pub checked_add : Duration → Duration → Option Duration
checked_add a b = if leb (a + b) duration_max then some (a + b) else none

pub checked_add-sum : (a b t : Duration) → checked_add a b ≡ some t → t ≡ a + b
unfolding checked_add
checked_add-sum a b t e = ground arith

abbrev pub TraceId : Type 0
TraceId = ℕ

pub record CapabilityToken : Type 0 where
  pub id : ℕ
  pub program : ProgramRef

unfoldable pub belongs_to : CapabilityToken → ProgramRef → Bool
belongs_to token program = token.program == program

unfoldable pub same_as : CapabilityToken → CapabilityToken → Bool
same_as a b = a.id == b.id && a.program == b.program

-- `Box<dyn Any + Send>`.
pub record ErasedValue (V : Type 0) : Type 0 where
  pub type_id : TypeId
  pub payload : V

pub data CancelReason : Type 0 where
  shutdown superseded deadline : CancelReason

pub data EffectOutcome (V : Type 0) : Type 0 where
  succeeded : V → EffectOutcome V
  failed : V → EffectOutcome V
  cancelled : CancelReason → EffectOutcome V

-- The error of a composed Source. `own` is the terminal descriptor's; the other two are
-- FramedError::Source and FramedError::Decode.
pub data SourceError (V : Type 0) : Type 0 where
  own : V → SourceError V
  source : SourceError V → SourceError V
  decode : V → SourceError V

pub data SourceEvent (V : Type 0) : Type 0 where
  item : V → SourceEvent V
  failed : SourceError V → SourceEvent V
  ended : SourceEvent V

pub data SourceEventKind : Type 0 where
  item failed ended : SourceEventKind

unfoldable pub kind_of : {V : Type 0} → SourceEvent V → SourceEventKind
kind_of (SourceEvent.item v) = SourceEventKind.item
kind_of (SourceEvent.failed e) = SourceEventKind.failed
kind_of SourceEvent.ended = SourceEventKind.ended

unfoldable pub is_terminal : SourceEventKind → Bool
is_terminal SourceEventKind.item = false
is_terminal SourceEventKind.failed = true
is_terminal SourceEventKind.ended = true

pub record ErasedSourceEvent (V : Type 0) : Type 0 where
  pub value : SourceEvent V
  pub kind : SourceEventKind

-- ErasedSourceEvent::typed.
unfoldable pub typed : {V : Type 0} → SourceEvent V → ErasedSourceEvent V
typed event = record { value = event; kind = kind_of event }

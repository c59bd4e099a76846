-- ===== src/Scoped.antt =====
-- SharedUtils/ScopedResources.h: objects that own a handle or a pointer each. A value is a number,
-- `none` where it is traits::invalid_value; what the traits wrap a value into is a parameter.
pub mod Members
pub mod Accounts
use iis_asgi_handler.Prelude.{
  ℕ, zero, suc, List, [], ◌∷◌, ◌++◌, length, Option, none, some, ◌==◌, if◌then◌else◌, Result, ok,
  err, Error, ◌>>=◌,
}

abbrev pub Value : Type 0
Value = Option ℕ

-- ScopedResourceTraits: Wrap(), on a state of the system.
pub record Traits : Type 1 where
  pub World : Type 0
  pub wrap : Value → World → Value × World

-- Those of HANDLE, and of T*.
abbrev pub handle_traits : Traits
handle_traits = record { World = Unit {0}; wrap = λ value w. (value, w) }

-- Those of BSTR, over ::SysAllocString().
abbrev pub bstr_traits : (World : Type 0) → (Value → World → Value × World) → Traits
bstr_traits World sys_alloc_string = record { World = World; wrap = sys_alloc_string }

-- What has become of the values, newest first: those that objects were given, those that
-- Transfer() gave away, those released, and those that another took the place of.
pub record Log : Type 0 where
  pub given : List ℕ
  pub transferred : List ℕ
  pub released : List ℕ
  pub overwritten : List ℕ

-- A value that is valid.
abbrev pub valid : Value → List ℕ
valid none = []
valid (some v) = v ∷ []

-- Set(), with the value that it wraps, and what is done through the pointer of Receive().
abbrev pub set_value : Value → Value × Log → Value × Log
set_value value (old, log) = (
  value,
  record log { given = valid value ++ log.given; overwritten = valid old ++ log.overwritten },
)

-- Transfer(), apart from its result.
abbrev pub transfer_value : Value × Log → Value × Log
transfer_value (value, log) = (none, record log { transferred = valid value ++ log.transferred })

-- Release(), which the destructor calls.
abbrev pub release_value : Value × Log → Value × Log
release_value (value, log) = (none, record log { released = valid value ++ log.released })

-- Something is done to the object with an index; `null_pointer` if there is no such object.
unfoldable pub act : (Value × Log → Value × Log) → ℕ → List Value → Log → Result (List Value × Log)
act f i [] log = err Error.null_pointer
act f zero (x ∷ xs) log = let (x', log') = f (x, log) in ok (x' ∷ xs, log')
act f (suc i) (x ∷ xs) log = act f i xs log >>= λ (xs', log'). ok (x ∷ xs', log')

-- Get()
unfoldable pub get : ℕ → List Value → Result Value
get i [] = err Error.null_pointer
get zero (x ∷ xs) = ok x
get (suc i) (x ∷ xs) = get i xs

-- What a program does to its objects, which are numbered as they are constructed.
pub data Operation : Type 0 where
  construct_default : Operation
  construct : (value : Value) → Operation
  construct_move : (other : ℕ) → Operation
  assign_move : (this other : ℕ) → Operation
  set receive : (this : ℕ) (value : Value) → Operation
  transfer release : (this : ℕ) → Operation

module _ (traits : Traits) where
  open traits use {World, wrap}

  pub record Objects : Type 0 where
    pub values : List Value
    pub log : Log
    pub world : World

  -- A function of the object's.
  unfoldable pub on : (Value × Log → Value × Log) → ℕ → Objects → Result Objects
  on f i o =
      act f i o.values o.log >>= λ (values, log). ok (record o { values = values; log = log })

  -- Set()
  unfoldable pub set_to : ℕ → Value → Objects → Result Objects
  set_to i value o =
      let (wrapped, w) = wrap value o.world in on (set_value wrapped) i (record o { world = w })

  -- Set(other.Transfer()), which the two moves consist of.
  unfoldable pub move : (this other : ℕ) → Objects → Result Objects
  move this other o = do
    value ← get other o.values
    o' ← on transfer_value other o
    set_to this value o'

  -- A new object, with an invalid value at first.
  abbrev pub fresh : Objects → Objects
  fresh o = record o { values = o.values ++ none ∷ [] }

  -- The constructors, the assignment, whose other branch ends without a return, and the rest.
  unfoldable pub step : Operation → Objects → Result Objects
  step construct_default o = ok (fresh o)
  step (construct value) o = set_to (length o.values) value (fresh o)
  step (construct_move other) o = move (length o.values) other (fresh o)
  step (assign_move this other) o = if this == other then err Error.no_return else move this other o
  step (set this value) o = set_to this value o
  step (receive this value) o = on (set_value value) this o
  step (transfer this) o = on transfer_value this o
  step (release this) o = on release_value this o

  unfoldable pub run : List Operation → Objects → Result Objects
  run [] o = ok o
  run (op ∷ ops) o = step op o >>= run ops

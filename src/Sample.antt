-- ===== src/Sample.antt =====
-- A small platform that meets the laws: objects are numbers with properties, doubles are numbers,
-- and an allocation is an address with a capacity. The tests run the code on it.
mod JavaVm
mod Tests
mod Lifetimes
mod Installation
mod Node
mod Lifecycle
mod Sessions
mod Stream
mod Targets
mod Forwarders
mod Receive
mod Dial
mod Facade
use iroh_react_native_bridge.World.{World}
use package.text.Mathlib.Text.{◌==◌ as str_eq}
use Prim.Native.Nat.{max}
use iroh_react_native_bridge.Base.{
  ℕ, zero, suc, ◌+◌, ◌≤◌, ◌<◌, ◌≡◌, ◌≢◌, refl, String, Bool, true, false, List, [], ◌∷◌, Option,
  some, none, ◌⊎◌, inl, inr, if◌then◌else◌, ◌==◌, ltb, arith, not, length,
}
use iroh_react_native_bridge.Platform.{
  Platform, Value, undefined, null, bool, number, text, object, RustBuffer, ForeignBytes,
  RustCallStatus, FfiType, FfiValue, nothing, Symbol, fn_func, rust_future_poll, rust_future_cancel,
  rust_future_free, rust_future_complete, checksum_func, uniffi_contract_version, close,
}
use iroh_react_native_bridge.Platform.Laws.{Laws}
use iroh_react_native_bridge.Install.Android.{Jni, JniLaws}

abbrev pub Cell : Type 0
Cell = Value ℕ ℕ

pub record Engine : Type 0 where
  pub properties : ℕ → String → Option Cell
  pub views : ℕ → Option (ℕ × ℕ)
  pub next_object : ℕ
  pub allocations : List (ℕ × ℕ)
  pub arrays : ℕ → Option (List ℕ)

abbrev pub capacity_at : List (ℕ × ℕ) → ℕ → Option ℕ
capacity_at [] a = none
capacity_at ((b, c) ∷ m) a = if b == a then some c else capacity_at m a

abbrev release : ℕ → List (ℕ × ℕ) → List (ℕ × ℕ)
release a [] = []
release a ((b, c) ∷ m) = let rest = release a m in if b == a then rest else (b, c) ∷ rest

-- Above every address in use.
abbrev fresh : List (ℕ × ℕ) → ℕ
fresh [] = 1
fresh ((b, c) ∷ m) = suc (max b (fresh m))

capacity_at-above : (m : List (ℕ × ℕ)) (a : ℕ) → fresh m ≤ a → capacity_at m a ≡ none
capacity_at-above [] a h = refl
capacity_at-above ((b, c) ∷ m) a h =
    let above : fresh m ≤ a = omega arith in
    let ne : b < a = omega arith in ground (arith, capacity_at-above m a above)

pub capacity_at-fresh : (m : List (ℕ × ℕ)) → capacity_at m (fresh m) ≡ none
capacity_at-fresh m = capacity_at-above m (fresh m) (omega arith)

capacity_at-release :
    (a : ℕ) (m : List (ℕ × ℕ)) (b : ℕ)
    → capacity_at (release a m) b ≡ (if a == b then none else capacity_at m b)
capacity_at-release a [] b = ground arith
capacity_at-release a ((d, c) ∷ m) b = ground (arith, capacity_at-release a m b)

abbrev get_or_undefined : Option Cell → Cell
get_or_undefined none = undefined
get_or_undefined (some v) = v

abbrev is_present : Option Cell → Bool
is_present none = false
is_present (some v) = true

abbrev write : Engine → ℕ → String → Cell → Engine
write s o k v = record s {
  properties =
      λ x j. if x == o then (if str_eq k j then some v else s.properties x j) else s.properties x j;
}

abbrev view_properties : ℕ → String → Option Cell
view_properties n k =
    if str_eq k "byteLength"
    then some (number n)
    else if str_eq k "byteOffset"
    then some (number 0)
    else none

abbrev make_view : Engine → ℕ → ℕ → ℕ × Engine
make_view s a n = (
  s.next_object,
  record s {
    properties = λ x k. if x == s.next_object then view_properties n k else s.properties x k;
    views = λ x. if x == s.next_object then some (a, n) else s.views x;
    next_object = s.next_object + 1;
  },
)

abbrev allocate : ℕ → Engine → RustBuffer × Engine
allocate n s = (
  record { capacity = n; len = n; data_ptr = fresh s.allocations },
  record s { allocations = (fresh s.allocations, n) ∷ s.allocations },
)

abbrev bytes_of : Option (ℕ × ℕ) → String ⊎ (ℕ × ℕ)
bytes_of none = inl "Expected an ArrayBuffer"
bytes_of (some v) = inr v

abbrev view_bytes : (ℕ → Option (ℕ × ℕ)) → Cell → String ⊎ (ℕ × ℕ)
view_bytes views (object o) = bytes_of (views o)
view_bytes views _ = inl "Expected an ArrayBuffer"

abbrev data_of : Option (ℕ × ℕ) → String ⊎ ℕ
data_of none = inl "Expected an ArrayBuffer"
data_of (some v) = inr v.0

abbrev number_in : FfiType → Cell → String ⊎ ℕ
number_in t (number n) = inr n
number_in t _ = inl "Expected a number"

-- `close` fails with a four-byte error; every other function succeeds.
abbrev call_rust :
    Symbol → List FfiValue → RustCallStatus → Engine → FfiValue × RustCallStatus × Engine
call_rust (fn_func close) values status s =
    let (buf, s') = allocate 4 s in (nothing, record { code = 1; error_buf = buf }, s')
call_rust _ values status s = (nothing, status, s)

-- The bytes at an address: each is the address.
abbrev pub bytes_at : ℕ → ℕ → List ℕ
bytes_at a zero = []
bytes_at a (suc n) = a ∷ bytes_at a n

abbrev make_array : Engine → ℕ → ℕ → ℕ × Engine
make_array s a n =
    (a + 1000, record s { arrays = λ x. if x == a + 1000 then some (bytes_at a n) else s.arrays x })

abbrev pub engine : Platform
engine = record {
  State = Engine;
  Object = ℕ;
  Double = ℕ;
  is_less = ltb;
  is_nan = λ n. false;
  of_ℕ = λ n. n;
  to_ℕ = λ n. n;
  get_property = λ s o k. get_or_undefined (s.properties o k);
  has_property = λ s o k. is_present (s.properties o k);
  set_property = write;
  new_object = λ s. (s.next_object, record s { next_object = s.next_object + 1 });
  is_function = λ s o. o == 5;
  conversion_error = λ v kind. kind;
  call_function = λ s f arguments. (inr undefined, s);
  of_pointer = bool true;
  uint8_array = make_view;
  buffer_data = λ s o. data_of (s.views o);
  value_to_arraybuffer = λ s. view_bytes s.views;
  scalar_to_js = λ t n. number n;
  scalar_from_js = number_in;
  string_to_bytelength = λ s v. inr (number 0);
  string_to_buffer = λ s v. (inr undefined, s);
  string_from_buffer = λ s v. inr (text "");
  read_string_from_buffer = λ s v a b. inr (text "");
  new_copy = make_array;
  ffi_rustbuffer_alloc = allocate;
  ffi_rustbuffer_from_bytes = λ b s. allocate b.len s;
  ffi_rustbuffer_free = λ b s. record s { allocations = release b.data_ptr s.allocations };
  ffi_call = call_rust;
  ffi_complete = λ t f n v status s. s;
}

pub get-write :
    (s : Engine) (o : ℕ) (k j : String) (v : Cell)
    → get_or_undefined ((write s o k v).properties o j)
      ≡ (if str_eq k j then v else get_or_undefined (s.properties o j))
get-write s o k j v = ground arith

pub has-write :
    (s : Engine) (o : ℕ) (k j : String) (v : Cell)
    → is_present ((write s o k v).properties o j)
      ≡ (if str_eq k j then true else is_present (s.properties o j))
has-write s o k j v = ground arith

pub ==-self : (n : ℕ) → (n == n) ≡ true
==-self n = ground arith

pub release-live :
    (s : Engine) (b : RustBuffer)
    → capacity_at s.allocations b.data_ptr ≡ some b.capacity
    → (a : ℕ)
    → capacity_at (release b.data_ptr s.allocations) a
      ≡ (if b.data_ptr == a then none else capacity_at s.allocations a)
release-live s b h a = capacity_at-release b.data_ptr s.allocations a

abbrev pub engine_laws : Laws engine
engine_laws = record {
  get-set = get-write;
  has-set = has-write;
  view_length = λ s a n. rw (==-self s.next_object);
  view_offset = λ s a n. rw (==-self s.next_object);
  view_hint = λ s a n. rw (==-self s.next_object);
  view_data = λ s a n. rw (==-self s.next_object);
  view_bytes = λ s a n. rw (==-self s.next_object);
  set-data = λ s o x k v. refl;
  bytes-set = λ s o k v x. refl;
  get-free = λ s b o k. refl;
  bytes-free = λ s b x. refl;
  to-of = λ n h. refl;
  live = λ s. capacity_at s.allocations;
  live-set = λ s o k v. refl;
  live-view = λ s a n. refl;
  live-copy = λ s a n. refl;
  live-free = release-live;
  alloc_fresh = λ s n h pos. capacity_at-fresh s.allocations;
  live-alloc = λ s n h pos a. refl;
  from_bytes_fresh = λ s b here pos small. capacity_at-fresh s.allocations;
  live-from_bytes = λ s b here pos small a. refl;
  memory = λ s a n. bytes_at a n;
  array = λ s. s.arrays;
  array-copy = λ s a n. rw (==-self (a + 1000)) refl;
  array-set = λ s o k v. refl;
  array-view = λ s a n. refl;
  array-free = λ s b. refl;
}

-- Objects 1 and 2 are views of the first allocation, 3 is a status object, 5 a function; 6 has a
-- call status, a return value, a handle and a `free` function.
abbrev pub property : ℕ → String → Option (Cell)
property x k =
    if x == 6
    then (if str_eq k "call_status"
        then some (object 3)
        else if str_eq k "return_value"
        then some (number 41)
        else if str_eq k "handle"
        then some (number 9)
        else if str_eq k "free"
        then some (object 5)
        else none)
    else none

abbrev pub state : Engine
state = record {
  properties = property;
  views = λ x. if x == 1 then some (100, 5) else if x == 2 then some (100, 3) else none;
  next_object = 10;
  allocations = (100, 16) ∷ (200, 8) ∷ [];
  arrays = λ x. none;
}

abbrev pub world : World engine
world = record { state = state; continuation = none; dropped = none; jobs = [] }

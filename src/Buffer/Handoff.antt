-- ===== src/Buffer/Handoff.antt =====
-- What a buffer's way to JavaScript and back does to the Rust allocation.
use text.Mathlib.Text.{◌==◌ as str_eq}
use iroh_react_native_bridge.Base.{
  ap, ℕ, ◌+◌, ◌≤◌, ◌<◌, ◌^◌, ◌≡◌, refl, false, [], ◌∷◌, if◌then◌else◌, ◌==◌, ◌>>=◌, ◌∙◌, returned,
  String, some, none, inl, inr, arith, Bool-cases,
}
use iroh_react_native_bridge.Platform.{Platform, Value, undefined, number, object, RustBuffer}
use iroh_react_native_bridge.Platform.Laws.{Laws}
use iroh_react_native_bridge.World.{World, Js, M}
use iroh_react_native_bridge.Buffer.{
  capacity_hint, to_js, js_rustbuffer_free, free_view, capacity_of, size_property,
}

module _ (p : Platform) (laws : Laws p) where
  -- The state after `to_js`.
  abbrev handed : p.State → RustBuffer → p.State
  handed s buf =
      let view = p.uint8_array s buf.data_ptr buf.len in
      if buf.capacity == buf.len
      then view.1
      else p.set_property view.1 view.0 capacity_hint (number (p.of_ℕ buf.capacity))

  to_js_returns :
      (buf : RustBuffer) (w : World p)
      → to_js p buf w
        ≡ returned
            (object (p.uint8_array w.state buf.data_ptr buf.len).0)
            (record w { state = handed w.state buf })
  unfolding to_js
  to_js_returns buf w = elim (Bool-cases (buf.capacity == buf.len)) [ inl e ↦ rw e | inr e ↦ rw e ]

  -- A size read back from a property that holds the number.
  pub size_property_returns :
      (view : p.Object) (key : String) (w : World p) {d : p.Double}
      → p.get_property w.state view key ≡ number d
      → size_property p view key w ≡ returned (p.to_ℕ d) w
  unfolding size_property
  size_property_returns view key w h = rw h

  -- `rustbuffer_free` on any view whose properties are known.
  module _ (view : p.Object) (w : World p) {offset : p.Double} {address : ℕ} where
    pub free_view_returns :
        (n : ℕ) {capacity : ℕ}
        → capacity_of p view n w ≡ returned capacity w
        → p.buffer_data w.state view ≡ inr address
        → p.get_property w.state view "byteOffset" ≡ number offset
        → free_view p view n w
          ≡ returned undefined (record w {
            state =
                p.ffi_rustbuffer_free
                  (record { capacity = capacity; len = 0; data_ptr = address + p.to_ℕ offset })
                  w.state;
          })
    unfolding free_view
    free_view_returns n hc hb ho = ground (arith, size_property_returns view "byteOffset" w ho)

  -- What a view says of its buffer after `to_js`.
  module _ (s : p.State) (buf : RustBuffer) where
    abbrev made : p.Object × p.State
    made = p.uint8_array s buf.data_ptr buf.len

    abbrev hint : Value p.Object p.Double
    hint = number (p.of_ℕ buf.capacity)

    -- A write of the hint leaves the other properties.
    handed_property :
        (key : String) {v : Value p.Object p.Double}
        → str_eq capacity_hint key ≡ false
        → p.get_property made.1 made.0 key ≡ v
        → p.get_property (handed s buf) made.0 key ≡ v
    handed_property key ne h = elim (Bool-cases (buf.capacity == buf.len)) [
      | inl e ↦ rw e h
      | inr e ↦ rw e (laws.get-set made.1 made.0 capacity_hint key hint ∙ rw ne h)
    ]

    handed_data : p.buffer_data (handed s buf) made.0 ≡ inr buf.data_ptr
    handed_data = elim (Bool-cases (buf.capacity == buf.len)) [
      | inl e ↦ rw e (laws.view_data s buf.data_ptr buf.len)
      | inr e ↦ rw e (
          laws.set-data made.1 made.0 made.0 capacity_hint hint
          ∙ laws.view_data s buf.data_ptr buf.len)
    ]

    handed_capacity :
        (w : World p)
        → w.state ≡ handed s buf
        → buf.capacity ≤ 2 ^ 53
        → capacity_of p made.0 buf.len w ≡ returned buf.capacity w
    unfolding capacity_of
    handed_capacity w at fits = elim (Bool-cases (buf.capacity == buf.len)) [
      | inl e ↦ ground (arith, laws.view_hint s buf.data_ptr buf.len)
      | inr e ↦ ground (
        arith,
        laws.has-set made.1 made.0 capacity_hint capacity_hint hint,
        laws.get-set made.1 made.0 capacity_hint capacity_hint hint,
        size_property_returns made.0 capacity_hint w,
        laws.to-of buf.capacity fits,
      )
    ]

  -- JavaScript gets a view of a Rust buffer and gives it back, as the code around each call does.
  abbrev pub hand_back : RustBuffer → M p (Js p)
  hand_back buf = do view ← to_js p buf; js_rustbuffer_free p (view ∷ [])

  abbrev released : World p → RustBuffer → World p
  released w buf = record w {
    state =
        p.ffi_rustbuffer_free (record { capacity = buf.capacity; len = 0; data_ptr = buf.data_ptr })
          (handed w.state buf);
  }

  hand_back_returns :
      (buf : RustBuffer) (w : World p)
      → 0 < buf.len
      → buf.len ≤ 2 ^ 53
      → buf.capacity ≤ 2 ^ 53
      → hand_back buf w ≡ returned undefined (released w buf)
  unfolding js_rustbuffer_free
  hand_back_returns buf w pos small fits = ground (
    arith,
    to_js_returns buf w,
    size_property_returns view "byteLength" w' (
        handed_property w.state buf "byteLength" refl
          (laws.view_length w.state buf.data_ptr buf.len)),
    laws.to-of buf.len small,
    laws.to-of 0 (omega arith),
    free_view_returns view w' buf.len (handed_capacity w.state buf w' refl fits)
        (handed_data w.state buf)
        (handed_property w.state buf "byteOffset" refl
          (laws.view_offset w.state buf.data_ptr buf.len)),
  )
    where
      view : p.Object
      view = (p.uint8_array w.state buf.data_ptr buf.len).0

      w' : World p
      w' = record w { state = handed w.state buf }

  live-handed : (s : p.State) (buf : RustBuffer) → laws.live (handed s buf) ≡ laws.live s
  live-handed s buf = elim (Bool-cases (buf.capacity == buf.len)) [
    | inl e ↦ rw e (laws.live-view s buf.data_ptr buf.len)
    | inr e ↦ rw e (laws.live-set _ _ _ _ ∙ laws.live-view s buf.data_ptr buf.len)
  ]

  -- A non-empty buffer that Rust hands to JavaScript through `toJs`, and whose view JavaScript then
  -- passes to `rustbuffer_free`, is freed under its own address and capacity: the call returns
  -- `undefined`, the allocation is gone and every other one is as before. The buffer is live, its
  -- length is positive, and length and capacity are at most 2^53, where a double is exact.
  pub to_js-js_rustbuffer_free :
      (buf : RustBuffer) (w : World p)
      → laws.live w.state buf.data_ptr ≡ some buf.capacity
      → 0 < buf.len
      → buf.len ≤ 2 ^ 53
      → buf.capacity ≤ 2 ^ 53
      → (w' : World p) × (hand_back buf w ≡ returned undefined w')
        × ((a : ℕ)
            → laws.live w'.state a ≡ (if buf.data_ptr == a then none else laws.live w.state a))
  to_js-js_rustbuffer_free buf w owned pos small fits = (
    released w buf,
    hand_back_returns buf w pos small fits,
    λ a.
        laws.live-free (handed w.state buf) _
          (ap (λ f. f buf.data_ptr) (live-handed w.state buf) ∙ owned) a
        ∙ rw (live-handed w.state buf) refl,
  )

  -- A buffer of length 0 is handed to JavaScript and given back without being freed, whatever
  -- its capacity: `rustbuffer_free` returns at the empty view before it reads the capacity hint, so
  -- every Rust allocation is as before.
  pub to_js-js_rustbuffer_free_empty :
      (buf : RustBuffer) (w : World p)
      → buf.len ≡ 0
      → (w' : World p) × (hand_back buf w ≡ returned undefined w')
        × ((a : ℕ) → laws.live w'.state a ≡ laws.live w.state a)
  unfolding js_rustbuffer_free
  to_js-js_rustbuffer_free_empty buf w empty = (
    w',
    ground (
      arith,
      to_js_returns buf w,
      size_property_returns view "byteLength" w' (
          handed_property w.state buf "byteLength" refl
            (laws.view_length w.state buf.data_ptr buf.len)),
      laws.to-of buf.len (omega arith),
    ),
    λ a. ap (λ f. f a) (live-handed w.state buf),
  )
    where
      view : p.Object
      view = (p.uint8_array w.state buf.data_ptr buf.len).0

      w' : World p
      w' = record w { state = handed w.state buf }

-- ===== src/Buffer/Allocate.antt =====
-- `rustbuffer_alloc` as JavaScript sees it, and what lowering a view costs.
use iroh_react_native_bridge.Base.{
  ℕ, ◌≤◌, ◌<◌, ◌^◌, ◌≡◌, ◌≢◌, ap, false, [], ◌∷◌, ◌>>=◌, returned, some, arith,
}
use iroh_react_native_bridge.Platform.{Platform, undefined, number, object, RustBuffer}
use iroh_react_native_bridge.Platform.Laws.{Laws}
use iroh_react_native_bridge.World.{World, Js, M}
use iroh_react_native_bridge.Buffer.{
  int32_max, js_rustbuffer_alloc, js_rustbuffer_free, capacity_of,
}
use iroh_react_native_bridge.Buffer.Handoff.{size_property_returns, free_view_returns}

module _ (p : Platform) (laws : Laws p) where
  -- JavaScript asks for a buffer and gives its view back.
  abbrev pub allocate_and_free : p.Double → M p (Js p)
  allocate_and_free size = do
    view ← js_rustbuffer_alloc p (number size ∷ [])
    js_rustbuffer_free p (view ∷ [])

  module _ (size : p.Double) (w : World p) where
    abbrev rb : RustBuffer
    rb = (p.ffi_rustbuffer_alloc (p.to_ℕ size) w.state).0

    abbrev allocated : p.State
    allocated = (p.ffi_rustbuffer_alloc (p.to_ℕ size) w.state).1

    abbrev made : p.Object × p.State
    made = p.uint8_array allocated rb.data_ptr rb.capacity

    abbrev viewed : World p
    viewed = record w { state = made.1 }

    abbrev back : RustBuffer
    back = record { capacity = rb.capacity; len = 0; data_ptr = rb.data_ptr }

    js_rustbuffer_alloc_returns :
        p.is_less size (p.of_ℕ 0) ≡ false
        → p.is_less (p.of_ℕ int32_max) size ≡ false
        → p.is_nan size ≡ false
        → rb.data_ptr ≢ 0
        → js_rustbuffer_alloc p (number size ∷ []) w ≡ returned (object made.0) viewed
    unfolding js_rustbuffer_alloc
    js_rustbuffer_alloc_returns low high real here = ground arith

    allocate_and_free_returns :
        p.is_less size (p.of_ℕ 0) ≡ false
        → p.is_less (p.of_ℕ int32_max) size ≡ false
        → p.is_nan size ≡ false
        → rb.data_ptr ≢ 0
        → 0 < rb.capacity
        → rb.capacity ≤ 2 ^ 53
        → allocate_and_free size w
          ≡ returned undefined (record w { state = p.ffi_rustbuffer_free back made.1 })
    unfolding js_rustbuffer_free capacity_of
    allocate_and_free_returns low high real here pos fits = ground (
      arith,
      js_rustbuffer_alloc_returns low high real here,
      size_property_returns p laws made.0 "byteLength" viewed
          (laws.view_length allocated rb.data_ptr rb.capacity),
      laws.to-of rb.capacity fits,
      laws.to-of 0 (omega arith),
      free_view_returns p laws made.0 viewed (p.to_ℕ (p.of_ℕ rb.capacity)) unhinted
          (laws.view_data allocated rb.data_ptr rb.capacity)
          (laws.view_offset allocated rb.data_ptr rb.capacity),
    )
      where
        unhinted :
            capacity_of p made.0 (p.to_ℕ (p.of_ℕ rb.capacity)) viewed
            ≡ returned (p.to_ℕ (p.of_ℕ rb.capacity)) viewed
        unhinted = ground (arith, laws.view_hint allocated rb.data_ptr rb.capacity)

    -- A buffer that `rustbuffer_alloc` gave JavaScript is freed by `rustbuffer_free` under the
    -- capacity that Rust allocated, which may exceed the size asked for: the calls return
    -- `undefined` and leave the Rust allocations as they were. The size is a number, neither below 0
    -- nor above INT32_MAX, Rust returns no null, and the capacity is positive and at most 2^53.
    pub js_rustbuffer_alloc-js_rustbuffer_free :
        p.is_less size (p.of_ℕ 0) ≡ false
        → p.is_less (p.of_ℕ int32_max) size ≡ false
        → p.is_nan size ≡ false
        → rb.data_ptr ≢ 0
        → 0 < rb.capacity
        → rb.capacity ≤ 2 ^ 53
        → (w' : World p) × (allocate_and_free size w ≡ returned undefined w')
          × ((a : ℕ) → laws.live w'.state a ≡ laws.live w.state a)
    js_rustbuffer_alloc-js_rustbuffer_free low high real here pos fits = (
      record w { state = p.ffi_rustbuffer_free back made.1 },
      allocate_and_free_returns low high real here pos fits,
      λ a. ground (
        arith,
        laws.live-free made.1 back owned a,
        ap (λ f. f a) (laws.live-view allocated rb.data_ptr rb.capacity),
        laws.live-alloc w.state (p.to_ℕ size) here pos a,
        laws.alloc_fresh w.state (p.to_ℕ size) here pos,
      ),
    )
      where
        owned : laws.live made.1 rb.data_ptr ≡ some rb.capacity
        owned = ground (
          arith,
          ap (λ f. f rb.data_ptr) (laws.live-view allocated rb.data_ptr rb.capacity),
          laws.live-alloc w.state (p.to_ℕ size) here pos rb.data_ptr,
        )

-- ===== src/Rpc/Capability/Numbers.antt =====
-- crates/capnp-rpc-core/src/capability.rs, `lowest_free_export_id`: the search for a number.
use capnp_rs_experiment.Prelude.{
  ℕ, zero, suc, ◌+◌, ◌≤◌, ◌<◌, ◌≡◌, ◌≢◌, ap, sym, ◌∙◌, Bool, true, false, ◌||◌, ok, leb, le→leb,
  leb→le, Bool-cases, inl, inr, u32_max, arith, Settled, Settled-ok, Settled-err, Settled-if,
}
use capnp_rs_experiment.Prelude.Maps.{Map, contains_key}
use capnp_rs_experiment.Rpc.Capability.{ExportEntry}
use capnp_rs_experiment.Rpc.Capability.Exports.{search_free, lowest_free_export_id}

search_free-Settled :
    (taken : ℕ → Bool) (fuel candidate : ℕ)
    → candidate ≤ u32_max
    → u32_max < fuel + candidate
    → Settled (λ id. taken id ≡ false) (search_free taken fuel candidate)
search_free-Settled taken zero candidate small enough = absurd (omega (arith, small, enough))
search_free-Settled taken (suc fuel) candidate small enough =
    Settled-if (taken candidate)
      (λ _.
        Settled-if (leb (candidate + 1) u32_max)
          (λ more.
            search_free-Settled taken fuel (candidate + 1) (leb→le _ _ more)
              (omega (arith, enough)))
          (λ _. Settled-err _))
      (λ free. Settled-ok candidate free)

pub lowest_free_export_id-Settled :
    (exports : Map ExportEntry) (reserved : ℕ → Bool)
    → Settled
        (λ id. (contains_key exports id || reserved id) ≡ false)
        (lowest_free_export_id exports reserved)
unfolding lowest_free_export_id
lowest_free_export_id-Settled exports reserved =
    search_free-Settled (λ id. contains_key exports id || reserved id) (u32_max + 1) 0 (omega arith)
      (omega arith)

-- The least number from `candidate` on.
record Least (taken : ℕ → Bool) (candidate id : ℕ) : Type 0 where
  pub free : taken id ≡ false
  pub below : (i : ℕ) → candidate ≤ i → i < id → taken i ≡ true

search_free-Least :
    (taken : ℕ → Bool) (fuel candidate j : ℕ)
    → candidate ≤ j
    → j ≤ u32_max
    → taken j ≡ false
    → j < fuel + candidate
    → (id : ℕ) × (search_free taken fuel candidate ≡ ok id) × Least taken candidate id
search_free-Least taken zero candidate j from small free enough =
    absurd (omega (arith, from, enough))
search_free-Least taken (suc fuel) candidate j from small free enough =
    elim (Bool-cases (taken candidate)) [
      | inr here ↦ (
        candidate,
        simp here,
        record { free = here; below = λ i a b. absurd (omega (arith, a, b)) },
      )
      | inl used ↦
          let apart : candidate ≢ j = λ e. absurd (cc (used, free, ap taken e)) in
          let (id, found, least) =
            search_free-Least taken fuel (candidate + 1) j (omega (arith, from, apart)) small free
              (omega (arith, enough)) in
          let more = le→leb (candidate + 1) u32_max (omega (arith, from, apart, small)) in
          (
            id,
            simp (used, more) found,
            record {
              free = least.free;
              below = λ i a b. elim (Bool-cases (leb (candidate + 1) i)) [
                | inl later ↦ least.below i (leb→le _ _ later) b
                | inr now ↦
                    let same : candidate ≡ i = ground (arith, a, now) in sym (ap taken same) ∙ used
              ];
            },
          )
    ]

-- If any number of 32 bits is neither exported nor reserved, the search returns the least such number.
pub lowest_free_export_id-Least :
    (exports : Map ExportEntry) (reserved : ℕ → Bool) (j : ℕ)
    → j ≤ u32_max
    → (contains_key exports j || reserved j) ≡ false
    → (id : ℕ) × (lowest_free_export_id exports reserved ≡ ok id)
      × ((contains_key exports id || reserved id) ≡ false)
      × ((i : ℕ) → i < id → (contains_key exports i || reserved i) ≡ true)
unfolding lowest_free_export_id
lowest_free_export_id-Least exports reserved j small free =
    let (id, found, least) =
      search_free-Least (λ i. contains_key exports i || reserved i) (u32_max + 1) 0 j (omega arith)
        small free (omega (arith, small)) in
    (id, found, least.free, λ i h. least.below i (omega arith) h)

-- ===== src/Message/Walk/Accounts.antt =====
-- `walk_pointer_graph` in crates/capnp-message/src/validation.rs: it ends, and its counts are the words
-- that it took from the budget.
use capnp_rs_experiment.Prelude.{
  ℕ, suc, zero, ◌+◌, ◌*◌, ◌≤◌, ◌<◌, ◌≡◌, refl, ap, Option, some, List, [], ◌∷◌, ◌++◌, Result, ok,
  err, panic, arith, All, All-append, Settled, Settled-fit, Settled-ok, usize_max,
}
use capnp_rs_experiment.Message.Budget.{TraversalBudget, NestingLimit}
use capnp_rs_experiment.Message.Error.{
  WireLocation, target_word_overflow, TraversalError, TraversalStats,
}
use capnp_rs_experiment.Message.Metered.{◌>>=◌, done, checked}
use capnp_rs_experiment.Message.Segments.{MessageSegments}
use capnp_rs_experiment.Message.Limits.{validate_pointer_with_limits}
use capnp_rs_experiment.Message.WorkItem.{
  WalkItem, pointer_item, pointer_range, inline_pointers, count_pointer,
}
use capnp_rs_experiment.Message.Walk.{
  step, walk, walk_pointer_graph, push_children, split_range, split_inline, resume,
}
use capnp_rs_experiment.Message.Walk.Spent.{Spent, Spent-done, Spent-bind, Spent-checked}
use capnp_rs_experiment.Message.Walk.Items.{
  IsValid, pending, turns, pending-append, turns-append, item_pointers, item_turns,
  split_range-Spent, split_inline-Spent, push_children-Spent, inline_pointers_left,
}
use capnp_rs_experiment.Message.Walk.Paid.{Paid, validate_pointer_with_limits-Paid}

count_pointer-Settled :
    (stats : TraversalStats) (words : ℕ)
    → Settled
        (λ next.
          (next.pointers_followed ≡ stats.pointers_followed + 1)
          × (next.words_charged ≡ stats.words_charged + words))
        (count_pointer stats words)
count_pointer-Settled stats words =
    Settled-fit usize_max (stats.pointers_followed + 1) target_word_overflow _ (λ _.
      Settled-fit usize_max (stats.words_charged + words) target_word_overflow _
        (λ _. Settled-ok _ (refl, refl)))

module _ {B : Type 0} (T : TraversalBudget B) where
  -- One turn of the loop takes a turn off what is left, counts what it charges, and pays for the
  -- pointers that it pushes.
  record Progress (item : WalkItem) (stats : TraversalStats) (b : B)
      (next : List WalkItem × TraversalStats) (b' : B) : Type 0 where
    pub valid : All IsValid (next.0)
    pub balance :
        (next.1).words_charged + T.remaining_words b' ≡ stats.words_charged + T.remaining_words b
    pub followed :
        (next.1).pointers_followed + pending (next.0) + stats.words_charged
        ≤ stats.pointers_followed + item_pointers item + (next.1).words_charged
    pub sooner :
        turns (next.0) + 2 * T.remaining_words b' + 1 ≤ item_turns item + 2 * T.remaining_words b

  step-Progress :
      (m : MessageSegments) (stats : TraversalStats) (item : WalkItem) (b : B)
      → IsValid item
      → Spent T b (Progress item stats b) (step T m stats item b)
  step-Progress m stats (pointer_item location limit) b h =
      Spent-bind T (Paid T m b) (validate_pointer_with_limits T m location limit b)
        (λ bounded. checked (count_pointer stats bounded.charged_words) >>= (λ stats'.
          push_children bounded.child_nesting bounded.pointer
          >>= (λ pushed. done (pushed, stats'))))
        (validate_pointer_with_limits-Paid T m location limit b)
        (λ bounded b' paid.
          Spent-checked T _ (count_pointer stats bounded.charged_words) b'
            (λ stats'.
              push_children bounded.child_nesting bounded.pointer
              >>= (λ pushed. done (pushed, stats')))
            (count_pointer-Settled stats bounded.charged_words)
            (λ stats' (one_more, words_more).
              Spent-bind T _ (push_children bounded.child_nesting bounded.pointer b')
                (λ pushed. done (pushed, stats'))
                (push_children-Spent T m bounded.child_nesting bounded.pointer b' paid.resolved)
                (λ pushed b'' (some_pushed, same).
                  Spent-done T (pushed, stats') b''
                    (let spent = ap T.remaining_words same in
                      record {
                        valid = some_pushed.valid;
                        balance = omega (arith, paid.balance, spent, words_more);
                        followed =
                            omega (arith, some_pushed.few, paid.covered, one_more, words_more);
                        sooner =
                            omega (arith, some_pushed.short, paid.covered, paid.balance, spent);
                      }))))
  step-Progress m stats (pointer_range r) b h =
      Spent-bind T _ (split_range r b) (λ pushed. done (pushed, stats)) (split_range-Spent T r b h)
        (λ pushed b' (some_pushed, same).
          Spent-done T (pushed, stats) b'
            (let spent = ap T.remaining_words same in
              record {
                valid = some_pushed.valid;
                balance = omega (arith, spent);
                followed = omega (arith, some_pushed.few);
                sooner = omega (arith, some_pushed.short, spent, h);
              }))
  step-Progress m stats (inline_pointers i) b h =
      Spent-bind T _ (split_inline i b) (λ pushed. done (pushed, stats))
        (split_inline-Spent T i b h)
        (λ pushed b' (some_pushed, same).
          Spent-done T (pushed, stats) b'
            (let spent = ap T.remaining_words same in
              record {
                valid = some_pushed.valid;
                balance = omega (arith, spent);
                followed = omega (arith, some_pushed.few);
                sooner = omega (arith, some_pushed.short, spent, inline_pointers_left i h);
              }))

  -- How a walk ends that started with `total` words: its counts and the budget left make up `total`.
  abbrev pub Outcome : ℕ → B × Result TraversalError TraversalStats → Type 0
  Outcome total (b, ok stats) =
      (stats.words_charged + T.remaining_words b ≡ total)
      × (stats.pointers_followed ≤ stats.words_charged + 1)
  Outcome total (b, err e) = T.remaining_words b ≤ total
  Outcome total (b, panic) = ⊥

  abbrev pub Ends : ℕ → Option (B × Result TraversalError TraversalStats) → Type 0
  Ends total walked =
      (out : B × Result TraversalError TraversalStats) × (walked ≡ some out) × Outcome total out

  resume-Ends :
      (total : ℕ)
      (loop : List WalkItem
        → TraversalStats
        → B
        → Option (B × Result TraversalError TraversalStats))
      (work : List WalkItem) (b : B) (P : List WalkItem × TraversalStats → B → Type 0)
      (r : B × Result TraversalError (List WalkItem × TraversalStats))
      → T.remaining_words b ≤ total
      → Spent T b P r
      → ((pushed : List WalkItem) (stats : TraversalStats) (b' : B)
          → P (pushed, stats) b'
          → Ends total (loop (pushed ++ work) stats b'))
      → Ends total (resume loop work r)
  resume-Ends total loop work b P (b', ok (pushed, stats)) less h k = k pushed stats b' (h.spends.1)
  resume-Ends total loop work b P (b', err e) less h k =
      ((b', err e), refl, omega (arith, less, h.spends))
  resume-Ends total loop work b P (b', panic) less h k = absurd h.spends

  walk-Ends :
      (m : MessageSegments) (total fuel : ℕ) (work : List WalkItem) (stats : TraversalStats) (b : B)
      → All IsValid work
      → turns work + 2 * T.remaining_words b < fuel
      → stats.words_charged + T.remaining_words b ≡ total
      → stats.pointers_followed + pending work ≤ stats.words_charged + 1
      → Ends total (walk T m fuel work stats b)
  unfolding walk
  walk-Ends m total zero work stats b valid enough balance followed = absurd (omega (arith, enough))
  walk-Ends m total (suc fuel) [] stats b valid enough balance followed =
      ((b, ok stats), refl, (balance, omega (arith, followed)))
  walk-Ends m total (suc fuel) (item ∷ work) stats b (v, vs) enough balance followed =
      resume-Ends total (walk T m fuel) work b (Progress item stats b) (step T m stats item b)
        (omega (arith, balance)) (step-Progress m stats item b v)
        (λ pushed stats' b' p.
          walk-Ends m total fuel (pushed ++ work) stats' b'
            (All-append IsValid pushed work p.valid vs)
            (omega (arith, p.sooner, enough, turns-append pushed work))
            (omega (arith, p.balance, balance))
            (omega (arith, p.followed, followed, pending-append pushed work)))

-- The walk from any root, over any message, pointer cycles included, ends within two turns for each word
-- of the budget and two more, and does not panic. If it succeeds, the words that it counts are those
-- that it took from the budget, and it followed at most one pointer more than it counts words; if it
-- fails, the budget is at most what it was.
pub walk_pointer_graph-Ends :
    {B : Type 0} (T : TraversalBudget B) (m : MessageSegments) (root : WireLocation)
    (limit : NestingLimit) (b : B)
    → Ends T
        (T.remaining_words b)
        (walk_pointer_graph T m (2 * T.remaining_words b + 2) root limit b)
unfolding walk_pointer_graph
walk_pointer_graph-Ends T m root limit b =
    walk-Ends T m (T.remaining_words b) (2 * T.remaining_words b + 2) (pointer_item root limit ∷ [])
      (record { pointers_followed = 0; words_charged = 0 }) b (tt, tt) (omega arith) (omega arith)
      (omega arith)

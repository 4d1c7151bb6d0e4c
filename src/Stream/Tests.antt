-- ===== src/Stream/Tests.antt =====
-- Tests of the coordinator, and its theorem at three batches that arrive out of order.
use rypipe.Prelude.{ℕ, ◌+◌, ◌<◌, ◌≡◌, refl, true, false, List, [], ◌∷◌, ok, arith}
use rypipe.Stream.{Delivery, Coordinator, start, coordinate}
use rypipe.Stream.Ordered.{Has, first_batches}
use rypipe.Stream.Arrivals.{messages, coordinate-first_batches}

abbrev in_order : Delivery ℕ
in_order = record {
  ordered = true;
  strict = false;
  reorder_limit = 0;
  size = λ b. 1;
  consume = λ history b. ok tt;
}

abbrev ten_times : ℕ → ℕ
ten_times k = 10 + k

abbrev late_first : List ℕ
late_first = 2 ∷ 1 ∷ 0 ∷ []

every_chunk : (k : ℕ) → k < 3 → Has k late_first
every_chunk k h = omega arith

coordinate-first_batches_example :
    (c : Coordinator ℕ) × (coordinate in_order start (messages ten_times late_first) ≡ ok c)
    × (c.delivered ≡ first_batches ten_times 3)
coordinate-first_batches_example =
    coordinate-first_batches in_order ten_times 3 (λ h b. refl) late_first refl refl
      (omega arith, (omega arith, (omega arith, tt))) every_chunk

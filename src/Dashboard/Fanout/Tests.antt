-- ===== src/Dashboard/Fanout/Tests.antt =====
-- A run of `publish`, and its property at a concrete input.
use anglerfish_ai.Base.{ℕ, ◌≡◌, refl, List, [], ◌∷◌}
use anglerfish_ai.Dashboard.Fanout.{put_nowait, offer, publish_to, publish_all}
use anglerfish_ai.Dashboard.Fanout.Newest.{queues_of, with_events, publish_all-newest}

-- One subscriber that had seen three events and has room for two, and a new one.
abbrev subscribers : List (ℕ × List ℕ)
subscribers = (2, 1 ∷ 2 ∷ 3 ∷ []) ∷ (5, []) ∷ []

slow_reader :
    publish_all {A = ℕ} (4 ∷ []) (record { maxsize = 2; items = 2 ∷ 3 ∷ [] } ∷ [])
    ≡ record { maxsize = 2; items = 3 ∷ 4 ∷ [] } ∷ []
unfolding publish_all publish_to offer put_nowait
slow_reader = refl

publish_all-newest_example :
    publish_all (4 ∷ 5 ∷ []) (queues_of subscribers)
    ≡ queues_of (with_events (4 ∷ 5 ∷ []) subscribers)
publish_all-newest_example = publish_all-newest (4 ∷ 5 ∷ []) subscribers refl

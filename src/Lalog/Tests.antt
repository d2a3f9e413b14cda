-- ===== src/Lalog/Tests.antt =====
-- The theorems about the log's buffers at concrete inputs.
use laitos.Base.{◌≡◌, ◌≢◌, refl, Bytes, List, [], ◌∷◌, codes, ℕ, replicate}
use laitos.Lalog.RingBuffer.{RingBuffer, new_ring_buffer, get_all}
use laitos.Lalog.RingBuffer.Latest.{push_all, get_all-push_all}

abbrev buffer : RingBuffer
buffer = record { size = 2; counter = 0; buf = replicate 2 [] }

abbrev entries : List Bytes
entries = codes "a" ∷ codes "b" ∷ codes "c" ∷ []

not_nil : {c : ℕ} {s : Bytes} → (c ∷ s) ≢ []
not_nil e = absurd (cc)

get_all-push_all_example : get_all (push_all entries buffer) ≡ codes "b" ∷ codes "c" ∷ []
unfolding new_ring_buffer
get_all-push_all_example =
    get_all-push_all 2 entries buffer refl (not_nil, (not_nil, (not_nil, tt)))

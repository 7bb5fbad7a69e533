-- ===== src/RoomManager/Ids.antt =====
-- The ids that GenerateRoomId makes: their length, and when two of them are the same.
use pokemon_cpp_server.Common.{ℕ, zero, suc, ◌+◌, ◌<◌, ◌≡◌, refl, arith, length}
use pokemon_cpp_server.RoomManager.{hex_digit, generate_loop, generate_room_id}

-- Every id has 32 digits and 4 dashes.
pub length-generate_room_id : (dis : ℕ → ℕ) → length (generate_room_id dis) ≡ 36
unfolding generate_room_id
length-generate_room_id dis = refl

hex_digit-injective : (v w : ℕ) → v < 16 → w < 16 → hex_digit v ≡ hex_digit w → v ≡ w
unfolding hex_digit
hex_digit-injective v w h k e = ground arith

-- Two texts of one round agree in the round's digit and in what follows it.
loop_step :
    (n i : ℕ) (d d' : ℕ → ℕ)
    → generate_loop (suc n) i d ≡ generate_loop (suc n) i d'
    → (hex_digit (d i) ≡ hex_digit (d' i))
      × (generate_loop n (i + 1) d ≡ generate_loop n (i + 1) d')
unfolding generate_loop
loop_step n i d d' e = ground arith

generate_loop-injective :
    (n i : ℕ) (d d' : ℕ → ℕ)
    → ((k : ℕ) → d k < 16)
    → ((k : ℕ) → d' k < 16)
    → generate_loop n i d ≡ generate_loop n i d'
    → (k : ℕ) → k < n
    → d (i + k) ≡ d' (i + k)
generate_loop-injective zero i d d' b b' e k h = elim h [ ]
generate_loop-injective (suc n) i d d' b b' e zero h =
    let same = loop_step n i d d' e in
    let j : i + 0 ≡ i = omega arith in rw j (hex_digit-injective (d i) (d' i) (b i) (b' i) same.0)
generate_loop-injective (suc n) i d d' b b' e (suc k) h =
    let same = loop_step n i d d' e in
    let j : i + suc k ≡ i + 1 + k = omega arith in
    rw j (generate_loop-injective n (i + 1) d d' b b' same.1 k (omega arith))

-- For numbers drawn below 16, two ids are the same only if all 32 numbers drawn for them are the
-- same.
pub generate_room_id-injective :
    (d d' : ℕ → ℕ)
    → ((k : ℕ) → d k < 16)
    → ((k : ℕ) → d' k < 16)
    → generate_room_id d ≡ generate_room_id d'
    → (k : ℕ) → k < 32
    → d k ≡ d' k
unfolding generate_room_id
generate_room_id-injective d d' b b' e k h =
    let j : 0 + k ≡ k = omega arith in rw j at (generate_loop-injective 32 0 d d' b b' e k h)

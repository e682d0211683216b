-- ===== src/Blob/Decoding.antt =====
-- The rounds of `decode_blob_data` of crates/primitives/src/blob.rs: a round that meets a group of
-- the stream appends the group's 127 bytes.
use taiko_mk.Prelude.{
  ℕ, suc, ◌+◌, ◌-◌, ◌*◌, ◌/◌, ◌%◌, ◌^◌, ◌≤◌, ◌<◌, ◌≡◌, refl, sym, ap, subst, ◌∙◌, arith,
}
use taiko_mk.Prelude.{List, ◌∷◌, ◌++◌, []}
use taiko_mk.Prelude.{length, length-append, length-drop, take, drop}
use taiko_mk.Blob.{decode_field_element, reassemble_bytes}
use taiko_mk.Blob.Bytes.{ok, zeros, byte_at, slice, write_slice}
use taiko_mk.Blob.Bytes.{
  drop-drop, drop-append, take-append, slice-inside, write_slice-over, write_slice-zeros, zeros-suc,
}
use taiko_mk.Blob.Bits.{
  top_clear, low_six, middle_two, shifted_four, low_four, or_nibbles, or_six_two,
}
use Prim.Native.Nat.{bit_and, bit_or}
use mathlib.Core.List.{append_assoc}

-- What is read at `q`, by what the blob holds from there on.
module _ (blob : List ℕ) (q : ℕ) where
  pub byte_at_rest : (e : ℕ) (rest : List ℕ) → drop q blob ≡ e ∷ rest → byte_at blob q ≡ ok e
  unfolding byte_at
  byte_at_rest e rest h = rw (h, byte_at)

  long_enough :
      (front rest : List ℕ)
      → 0 < length front
      → drop q blob ≡ front ++ rest
      → q + length front ≤ length blob
  long_enough front rest some_bytes h =
      omega (arith, length-drop q blob, ap length h, length-append front rest)

  pub slice_rest :
      (n : ℕ) (front rest : List ℕ)
      → length front ≡ n
      → 0 < n
      → drop q blob ≡ front ++ rest
      → slice blob q n ≡ ok front
  slice_rest n front rest e pos h =
      slice-inside blob q n (omega (arith, long_enough front rest (omega arith) h))
      ∙ ap ok (
          ap (take n) h
          ∙ subst (λ (t : ℕ). take t (front ++ rest) ≡ front) e (take-append front rest))

  pub drop_rest :
      (n : ℕ) (front rest : List ℕ)
      → length front ≡ n
      → drop q blob ≡ front ++ rest
      → drop (q + n) blob ≡ rest
  drop_rest n front rest e h =
      sym (drop-drop q n blob)
      ∙ (ap (drop n) h
          ∙ subst (λ (t : ℕ). drop t (front ++ rest) ≡ rest) e (drop-append front rest))

-- A field element appends its 31 bytes.
pub decode_field_element-append :
    (blob : List ℕ) (q pos k m e : ℕ) (buf rest done : List ℕ)
    → drop q blob ≡ e ∷ (buf ++ rest)
    → length buf ≡ 31
    → e < 64
    → length done ≡ pos
    → 31 + m ≡ k
    → decode_field_element blob
        (record { output_pos = pos; input_pos = q; output = done ++ zeros k })
      ≡ ok (
        e,
        record { output_pos = pos + 32; input_pos = q + 32; output = done ++ (buf ++ zeros m) },
      )
unfolding decode_field_element
decode_field_element-append blob q pos k m e buf rest done h full six at_end room = rw (
  byte_at_rest blob q e (buf ++ rest) h,
  top_clear e six,
  slice_rest blob (q + 1) 31 buf rest full (omega arith)
      (drop_rest blob q 1 (e ∷ []) (buf ++ rest) refl h),
  write_slice-zeros pos k m done buf at_end (omega arith),
)

-- Behind the first of a round it leaves one byte free before them.
pub decode_field_element-lem :
    (blob : List ℕ) (q pos k m e : ℕ) (buf rest done : List ℕ)
    → drop q blob ≡ e ∷ (buf ++ rest)
    → length buf ≡ 31
    → e < 64
    → suc (length done) ≡ pos
    → 32 + m ≡ k
    → decode_field_element blob
        (record { output_pos = pos; input_pos = q; output = done ++ zeros k })
      ≡ ok (
        e,
        record {
          output_pos = pos + 32;
          input_pos = q + 32;
          output = (done ++ (0 ∷ buf)) ++ zeros m;
        },
      )
decode_field_element-lem blob q pos k m e buf rest done h full six at_end room =
    rw before (
      decode_field_element-append blob q pos (31 + m) m e buf rest (done ++ (0 ∷ [])) h full six
        (omega (arith, length-append done (0 ∷ []))) refl)
    ∙ ap (λ (t : List ℕ). ok (e, record { output_pos = pos + 32; input_pos = q + 32; output = t }))
        after
  where
    one_more : k ≡ suc (31 + m)
    one_more = omega arith

    before : done ++ zeros k ≡ (done ++ (0 ∷ [])) ++ zeros (31 + m)
    before =
        ap (λ (t : ℕ). done ++ zeros t) one_more
        ∙ (ap (λ t. done ++ t) (zeros-suc (31 + m))
            ∙ sym (append_assoc done (0 ∷ []) (zeros (31 + m))))

    after : (done ++ (0 ∷ [])) ++ (buf ++ zeros m) ≡ (done ++ (0 ∷ buf)) ++ zeros m
    after = simp append_assoc

-- The three bytes that four field elements share.
module _ (x y z : ℕ) (bx : x < 256) (by : y < 256) (bz : z < 256) where
  x_back :
      bit_or
        (bit_and (x % 64) 0b0011_1111)
        (bit_and (y % 16 + x / 64 * 16) 0b0011_0000 * 2 ^ 2 % 256)
      ≡ x
  x_back =
      rw
        (
          low_six (x % 64) (omega arith),
          middle_two (y % 16 + x / 64 * 16) (omega arith),
          parts.0,
          parts.1,
          or_six_two (x % 64) (x / 64) (omega arith) (omega arith),
        )
        (omega arith)
    where
      parts : (x % 64 % 64 ≡ x % 64) × ((y % 16 + x / 64 * 16) / 16 ≡ x / 64)
      parts = omega arith

  y_back :
      bit_or
        (bit_and (y % 16 + x / 64 * 16) 0b0000_1111)
        (bit_and (y / 16 + z / 64 * 16) 0b0000_1111 * 2 ^ 4 % 256)
      ≡ y
  y_back =
      rw
        (
          low_four (y % 16 + x / 64 * 16) (omega arith),
          shifted_four (y / 16 + z / 64 * 16) (omega arith),
          parts.0,
          parts.1,
          or_nibbles (y % 16) (y / 16) (omega arith) (omega arith),
        )
        (omega arith)
    where
      parts : ((y % 16 + x / 64 * 16) % 16 ≡ y % 16) × ((y / 16 + z / 64 * 16) % 16 ≡ y / 16)
      parts = omega arith

  z_back :
      bit_or
        (bit_and (z % 64) 0b0011_1111)
        (bit_and (y / 16 + z / 64 * 16) 0b0011_0000 * 2 ^ 2 % 256)
      ≡ z
  z_back =
      rw
        (
          low_six (z % 64) (omega arith),
          middle_two (y / 16 + z / 64 * 16) (omega arith),
          parts.0,
          parts.1,
          or_six_two (z % 64) (z / 64) (omega arith) (omega arith),
        )
        (omega arith)
    where
      parts : (z % 64 % 64 ≡ z % 64) × ((y / 16 + z / 64 * 16) / 16 ≡ z / 64)
      parts = omega arith

  -- They go back to the free places.
  pub reassemble_bytes-lem :
      (front b1 b2 b3 : List ℕ) (o q m : ℕ)
      → length front ≡ o
      → length b1 ≡ 31
      → length b2 ≡ 31
      → reassemble_bytes (x % 64) (y % 16 + x / 64 * 16) (z % 64) (y / 16 + z / 64 * 16) (record {
        output_pos = o + 97;
        input_pos = q;
        output = (((front ++ (0 ∷ b1)) ++ (0 ∷ b2)) ++ (0 ∷ b3)) ++ zeros m;
      })
        ≡ ok (record {
          output_pos = o + 96;
          input_pos = q;
          output = (front ++ ((x ∷ b1) ++ ((y ∷ b2) ++ (z ∷ b3)))) ++ zeros m;
        })
  unfolding reassemble_bytes
  reassemble_bytes-lem front b1 b2 b3 o q m at_end l1 l2 =
      rw (x_back, y_back, z_back, write_z, write_y, write_x, positions)
        (ap (λ (t : List ℕ). ok (record { output_pos = o + 96; input_pos = q; output = t }))
          together)
    where
      positions : o + 97 - 1 ≡ o + 96
      positions = omega arith

      write_z :
          write_slice
            (o + 97 - 1 - 32)
            (z ∷ [])
            ((((front ++ (0 ∷ b1)) ++ (0 ∷ b2)) ++ (0 ∷ b3)) ++ zeros m)
          ≡ ok (((front ++ (0 ∷ b1)) ++ (0 ∷ b2)) ++ ((z ∷ []) ++ (b3 ++ zeros m)))
      write_z = rw (append_assoc ((front ++ (0 ∷ b1)) ++ (0 ∷ b2)) (0 ∷ b3) (zeros m)) (
          write_slice-over (o + 97 - 1 - 32) ((front ++ (0 ∷ b1)) ++ (0 ∷ b2)) (z ∷ []) (0 ∷ [])
            (b3 ++ zeros m)
            (omega
              (arith, length-append (front ++ (0 ∷ b1)) (0 ∷ b2), length-append front (0 ∷ b1)))
            refl)

      write_y :
          write_slice
            (o + 97 - 1 - 32 * 2)
            (y ∷ [])
            (((front ++ (0 ∷ b1)) ++ (0 ∷ b2)) ++ ((z ∷ []) ++ (b3 ++ zeros m)))
          ≡ ok ((front ++ (0 ∷ b1)) ++ ((y ∷ []) ++ (b2 ++ (z ∷ (b3 ++ zeros m)))))
      write_y = rw (append_assoc (front ++ (0 ∷ b1)) (0 ∷ b2) (z ∷ (b3 ++ zeros m))) (
          write_slice-over (o + 97 - 1 - 32 * 2) (front ++ (0 ∷ b1)) (y ∷ []) (0 ∷ [])
            (b2 ++ (z ∷ (b3 ++ zeros m))) (omega (arith, length-append front (0 ∷ b1))) refl)

      write_x :
          write_slice
            (o + 97 - 1 - 32 * 3)
            (x ∷ [])
            ((front ++ (0 ∷ b1)) ++ ((y ∷ []) ++ (b2 ++ (z ∷ (b3 ++ zeros m)))))
          ≡ ok (front ++ ((x ∷ []) ++ (b1 ++ (y ∷ (b2 ++ (z ∷ (b3 ++ zeros m)))))))
      write_x = rw (append_assoc front (0 ∷ b1) (y ∷ (b2 ++ (z ∷ (b3 ++ zeros m))))) (
          write_slice-over (o + 97 - 1 - 32 * 3) front (x ∷ []) (0 ∷ [])
            (b1 ++ (y ∷ (b2 ++ (z ∷ (b3 ++ zeros m))))) (omega arith) refl)

      together :
          front ++ (x ∷ (b1 ++ (y ∷ (b2 ++ (z ∷ (b3 ++ zeros m))))))
          ≡ (front ++ ((x ∷ b1) ++ ((y ∷ b2) ++ (z ∷ b3)))) ++ zeros m
      together = simp append_assoc

-- ===== src/Tunnel/Forward/Queue.antt =====
-- The write queue of src/tunnel/forward.rs.
use openfortivpn_rs.Common.{
  drop_prefix, ℕ, ◌+◌, ◌≤◌, ◌<◌, min, true, false, List, [], ◌∷◌, ◌++◌, append_assoc, append-nil,
  ◌==◌, ==_iff, Bool-cases, length, take, drop, drop-drop, take-append-drop, length-append,
  length-take, length-drop, take-all, ◌≡◌, ◌≢◌, refl, sym, ap, ◌∙◌, arith, inl, inr, All,
}
use openfortivpn_rs.Common.Bytes.{Bytes}
use openfortivpn_rs.Common.Error.{Result, ok, err}
use openfortivpn_rs.Tunnel.Io.Pty.Chunks.{join}
use openfortivpn_rs.Tunnel.Forward.{
  new_queue, WriteAnswer, room, would_block, broken, WriteQueue, push, advanced, pending_data,
  write_loop, write_available,
}

-- No chunk is empty, and the first is not written whole.
abbrev Waits : List Bytes → ℕ → Type 0
Waits [] offset = offset ≡ 0
Waits (front ∷ rest) offset = (offset < length front) × All (λ chunk. 0 < length chunk) rest

abbrev pub IsWriteQueue : WriteQueue → Type 0
IsWriteQueue queue = Waits queue.chunks queue.offset

-- What is still to be written.
abbrev pub pending : WriteQueue → Bytes
pending queue = drop queue.offset (join queue.chunks)

Waits-rest : (rest : List Bytes) → All (λ chunk. 0 < length chunk) rest → Waits rest 0
Waits-rest [] h = refl
Waits-rest (chunk ∷ rest) h = h

advanced_lem :
    (front : Bytes) (rest : List Bytes) (offset n : ℕ)
    → All (λ chunk. 0 < length chunk) rest
    → offset + n ≤ length front
    → IsWriteQueue (advanced front rest (offset + n))
      × (take n (drop offset front) ++ pending (advanced front rest (offset + n))
          ≡ drop offset (front ++ join rest))
advanced_lem front rest offset n h fits = elim (Bool-cases (offset + n == length front)) [
  | inl e ↦
      let whole : offset + n ≡ length front = (==_iff (offset + n) (length front)).0 e in
      rw e (
        Waits-rest rest h,
        ap (λ t. t ++ join rest)
              (take-all n (drop offset front) (omega (arith, length-drop offset front)))
            ∙ sym (drop_prefix offset front (join rest) (omega arith)),
      )
  | inr e ↦
      let partly : offset + n ≢ length front =
        λ q. cc ((==_iff (offset + n) (length front)).1 q, e) in
      rw e (
        (omega (arith, partly), h),
        ap (λ t. take n (drop offset front) ++ t)
              (drop_prefix (offset + n) front (join rest) fits
                ∙ ap (λ t. t ++ join rest) (sym (drop-drop n offset front)))
            ∙ sym
                (append_assoc (take n (drop offset front)) (drop n (drop offset front)) (join rest))
            ∙ ap (λ t. t ++ join rest) (take-append-drop n (drop offset front))
            ∙ sym (drop_prefix offset front (join rest) (omega arith)),
      )
]

-- What a call leaves: no byte is lost, repeated or moved between the writer and the queue.
abbrev Keeps : List Bytes → ℕ → Bytes → Result (Unit {0}) × WriteQueue × Bytes → Type 0
Keeps chunks offset writer (result, queue, written) =
    IsWriteQueue queue × (written ++ pending queue ≡ writer ++ drop offset (join chunks))

write_loop-Keeps :
    (answers : List WriteAnswer) (chunks : List Bytes) (offset : ℕ) (writer : Bytes)
    → Waits chunks offset
    → Keeps chunks offset writer (write_loop answers chunks offset writer)
unfolding write_loop
write_loop-Keeps answers [] offset writer h = (h, refl)
write_loop-Keeps [] (front ∷ rest) offset writer h = (h, refl)
write_loop-Keeps (would_block ∷ answers) (front ∷ rest) offset writer h = (h, refl)
write_loop-Keeps (broken e ∷ answers) (front ∷ rest) offset writer h = (h, refl)
write_loop-Keeps (room r ∷ answers) (front ∷ rest) offset writer h =
    let n = min r (length (drop offset front)) in
    let queue = advanced front rest (offset + n) in
    let (waits, kept) =
      advanced_lem front rest offset n h.1 (omega (arith, length-drop offset front)) in
    let later =
      write_loop-Keeps answers queue.chunks queue.offset (writer ++ take n (drop offset front))
        waits in
    elim (n == 0)
      as (λ b. Keeps (front ∷ rest) offset writer (elim b [
        | true ↦ (err pending_data, record { chunks = front ∷ rest; offset = offset }, writer)
        | false ↦
            write_loop answers (queue.chunks) (queue.offset) (writer ++ take n (drop offset front))
      ])) [
        | true ↦ (h, refl)
        | false ↦ (
          later.0,
          later.1
              ∙ append_assoc writer (take n (drop offset front)) (pending queue)
              ∙ ap (writer ++◌) kept,
        )
      ]

-- Whatever the writer answers, an error included, the bytes written and the bytes that wait are
-- together, in order, what they were before; no empty chunk waits, and the offset stays inside the
-- first chunk.
pub write_available_keeps :
    (answers : List WriteAnswer) (queue : WriteQueue) (writer : Bytes)
    → IsWriteQueue queue
    → let after = write_available answers queue writer in
      IsWriteQueue after.1 × (after.2 ++ pending after.1 ≡ writer ++ pending queue)
write_available_keeps answers queue writer h =
    write_loop-Keeps answers queue.chunks queue.offset writer h

==_false : (a b : ℕ) → a ≢ b → (a == b) ≡ false
==_false a b h = elim (Bool-cases (a == b)) [ inl e ↦ absurd (h ((==_iff a b).0 e)) | inr e ↦ e ]

-- A writer that takes a byte at least.
abbrev pub HasRoom : WriteAnswer → Type 0
HasRoom (room r) = 0 < r
HasRoom would_block = ⊥
HasRoom (broken e) = ⊥

abbrev Empties : List Bytes → ℕ → Bytes → Result (Unit {0}) × WriteQueue × Bytes → Type 0
Empties chunks offset writer after = after ≡ (ok tt, new_queue, writer ++ drop offset (join chunks))

write_loop-Empties :
    (answers : List WriteAnswer) (chunks : List Bytes) (offset : ℕ) (writer : Bytes)
    → Waits chunks offset
    → All HasRoom answers
    → length (drop offset (join chunks)) ≤ length answers
    → Empties chunks offset writer (write_loop answers chunks offset writer)
unfolding write_loop
write_loop-Empties answers [] offset writer h r e =
    rw h (ap (λ t. (ok tt, new_queue, t)) (sym (append-nil writer)))
write_loop-Empties [] (front ∷ rest) offset writer h r e =
    absurd
      (omega (arith, h.0, length-append front (join rest), length-drop offset (front ++ join rest)))
write_loop-Empties (would_block ∷ answers) (front ∷ rest) offset writer h r e = absurd r.0
write_loop-Empties (broken x ∷ answers) (front ∷ rest) offset writer h r e = absurd r.0
write_loop-Empties (room k ∷ answers) (front ∷ rest) offset writer h r e =
    let n = min k (length (drop offset front)) in
    let queue = advanced front rest (offset + n) in
    let (waits, kept) =
      advanced_lem front rest offset n h.1 (omega (arith, length-drop offset front)) in
    let later =
      write_loop-Empties answers queue.chunks queue.offset (writer ++ take n (drop offset front))
        waits r.1
        (omega (
          arith,
          r.0,
          h.0,
          ap length kept,
          length-append (take n (drop offset front)) (pending queue),
          length-take n (drop offset front),
          length-drop offset front,
        )) in
    let moves : (n == 0) ≡ false =
      ==_false n 0 (omega (arith, h.0, r.0, length-drop offset front)) in
    rw (write_loop, moves)
      (later
        ∙ ap (λ t. (ok tt, new_queue, t))
            (append_assoc writer (take n (drop offset front)) (pending queue)
              ∙ ap (writer ++◌) kept))

-- A writer that takes a byte at least each time it is asked, as often as bytes wait, empties the
-- queue: all that waited is written, in order, and the call succeeds.
pub write_available_empties :
    (answers : List WriteAnswer) (queue : WriteQueue) (writer : Bytes)
    → IsWriteQueue queue
    → All HasRoom answers
    → length (pending queue) ≤ length answers
    → write_available answers queue writer ≡ (ok tt, new_queue, writer ++ pending queue)
write_available_empties answers queue writer =
    write_loop-Empties answers queue.chunks queue.offset writer

join-append : (xs ys : List Bytes) → join (xs ++ ys) ≡ join xs ++ join ys
join-append [] ys = refl
join-append (x ∷ xs) ys = ap (x ++◌) (join-append xs ys) ∙ sym (append_assoc x (join xs) (join ys))

Waits-offset :
    (chunks : List Bytes) (offset : ℕ) → Waits chunks offset → offset ≤ length (join chunks)
Waits-offset [] offset h = omega (arith, h)
Waits-offset (front ∷ rest) offset h = omega (arith, h.0, length-append front (join rest))

Waits-push :
    (chunks : List Bytes) (offset : ℕ) (b : ℕ) (bytes : Bytes)
    → Waits chunks offset
    → Waits (chunks ++ (b ∷ bytes) ∷ []) offset
Waits-push [] offset b bytes h = (omega (arith, h), tt)
Waits-push (front ∷ rest) offset b bytes h = (h.0, All_last rest h.1)
  where
    All_last :
        (rest : List Bytes)
        → All (λ (chunk : Bytes). 0 < length chunk) rest
        → All (λ (chunk : Bytes). 0 < length chunk) (rest ++ (b ∷ bytes) ∷ [])
    All_last [] h = (omega arith, tt)
    All_last (chunk ∷ rest) h = (h.0, All_last rest h.1)

-- Bytes pushed to a queue wait behind those that waited.
pub push_lem :
    (bytes : Bytes) (queue : WriteQueue)
    → IsWriteQueue queue
    → IsWriteQueue (push bytes queue) × (pending (push bytes queue) ≡ pending queue ++ bytes)
unfolding push
push_lem [] queue h = (h, sym (append-nil (pending queue)))
push_lem (b ∷ bytes) queue h = (
  Waits-push queue.chunks queue.offset b bytes h,
  ap (drop queue.offset) (
        join-append queue.chunks ((b ∷ bytes) ∷ [])
        ∙ ap (join queue.chunks ++◌) (append-nil (b ∷ bytes)))
      ∙ drop_prefix queue.offset (join queue.chunks) (b ∷ bytes)
          (Waits-offset queue.chunks queue.offset h),
)

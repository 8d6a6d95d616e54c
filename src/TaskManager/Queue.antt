-- ===== src/TaskManager/Queue.antt =====
-- The ring of buffers holds a queue of chunks, in the order in which they were put in.
use velox_dfs.Base.{
  ℕ, suc, ◌+◌, ◌-◌, ◌%◌, ◌^◌, ◌≤◌, ◌<◌, ◌≡◌, ◌≢◌, refl, ap, sym, ◌∙◌, subst, true, false, List, [],
  ◌∷◌, ◌++◌, some, Text, IsZeroFree, take, drop, length, replicate, get_or, get_elem?, set,
  length-set, get_elem?-set_self, get_elem?-set_ne, get_elem?-lt, lt-get_elem?, length-append,
  length-take, length-drop, length-replicate, take-append_le, take_all, ltb, ◌==◌, if◌then◌else◌,
  ◌>>=◌, arith, ℕ_discrete, dec_lt, get_elem?-append_lt, get_elem?-append_right, some-injective,
}
use velox_dfs.Messages.{BlockInfo}
use velox_dfs.TaskManager.{
  Buffer, Ring, in_use, slot, wrote, must_wait, put_chunk, produce, after_wait, strncpy, is_empty,
  no_more, took, read_chunk,
}

mod_ne : (q a d : ℕ) → 0 < d → d < q → a % q ≢ (a + d) % q
mod_ne q a d h k e = grind arith

-- The buffer holds the chunk.
abbrev Stores : Ring → ℕ → Text → Type 0
Stores r i c =
    (b : Buffer) × (get_elem? r.buffers i ≡ some b)
    × (b.chunk_size ≡ length c)
    × (take (length c) b.buf ≡ c)
    × (length c ≤ length b.buf)

-- The chunks are in the buffers from the head on. Each buffer is a block long.
pub record IsQueue (block_size : ℕ) (r : Ring) (pending : List Text) : Type 0 where
  pub nonempty : 0 < r.queue_size
  pub complete : length r.buffers ≡ r.queue_size
  pub counted : r.head + length pending ≡ r.tail
  pub room : length pending ≤ r.queue_size
  pub below : r.tail < 2 ^ 32
  pub stored :
      (j : ℕ) (c : Text) → get_elem? pending j ≡ some c → Stores r ((r.head + j) % r.queue_size) c
  pub wide : (i : ℕ) (b : Buffer) → get_elem? r.buffers i ≡ some b → length b.buf ≡ block_size

strncpy_lem : (c s : Text) → IsZeroFree c → take (length c) s ≡ c → strncpy (length c) s ≡ c
unfolding strncpy
strncpy_lem [] s h e = refl
strncpy_lem (a ∷ c) [] h e = absurd (cc)
strncpy_lem (a ∷ c) (b ∷ s) h e =
    let heads : b ≡ a = ap (λ x. get_or x 0 0) e in
    let tails : take (length c) s ≡ c = ap (drop 1) e in
    let solid : (b == 0) ≡ false = ground (arith, h.0) in
    rw (solid, strncpy_lem c s h.1 tails) (ap (λ x. x ∷ c) heads)

module _ (block_size : ℕ) (r : Ring) where
  in_use_lem : (pending : List Text) → IsQueue block_size r pending → in_use r ≡ length pending
  unfolding in_use
  in_use_lem pending q = omega (arith, q.counted, q.below)

  slot_lem :
      (pending : List Text) (i : ℕ)
      → IsQueue block_size r pending
      → slot r i ≡ some (i % r.queue_size)
  unfolding slot
  slot_lem pending i q =
      let some_slots : (r.queue_size == 0) ≡ false = ground (arith, q.nonempty) in
      rw some_slots refl

  pub produce_full :
      (pending : List Text) (ifs : Text) (md : BlockInfo)
      → IsQueue block_size r pending
      → r.queue_size ≤ length pending
      → produce ifs md r ≡ some must_wait
  unfolding produce
  produce_full pending ifs md q h =
      let shut : ltb (in_use r) r.queue_size ≡ false = ground (arith, in_use_lem pending q) in
      rw shut refl

  -- What is written into one buffer is not written into another.
  wide-set :
      (pending : List Text) (i : ℕ) (b : Buffer)
      → IsQueue block_size r pending
      → length b.buf ≡ block_size
      → (k : ℕ) (b' : Buffer) → get_elem? (set r.buffers i b) k ≡ some b'
      → length b'.buf ≡ block_size
  wide-set pending i b q sized k b' e = elim (ℕ_discrete i k) [
    | yes same ↦
        let at : get_elem? (set r.buffers i b) i ≡ some b' =
          ap (get_elem? (set r.buffers i b)) same ∙ e in
        let inside : i < length r.buffers =
          omega (arith, lt-get_elem? (set r.buffers i b) i b' at, length-set r.buffers i b) in
        let it_is : b ≡ b' =
          some-injective _ _ (sym (get_elem?-set_self r.buffers i b inside) ∙ at) in
        ap (λ x. length (Buffer.buf x)) (sym it_is) ∙ sized
    | no other ↦ q.wide k b' (sym (get_elem?-set_ne r.buffers i k b other) ∙ e)
  ]

  abbrev filled : ℕ → Buffer → Ring
  filled i b = record r { buffers = set r.buffers i b; tail = (r.tail + 1) % 2 ^ 32 }

  stored-filled :
      (pending : List Text) (c : Text) (b : Buffer)
      → IsQueue block_size r pending
      → length pending < r.queue_size
      → b.chunk_size ≡ length c
      → take (length c) b.buf ≡ c
      → length c ≤ length b.buf
      → (j : ℕ) (c' : Text) → get_elem? (pending ++ (c ∷ [])) j ≡ some c'
      → Stores (filled (r.tail % r.queue_size) b) ((r.head + j) % r.queue_size) c'
  stored-filled pending c b q h counts holds fits j c' e = elim (dec_lt j (length pending)) [
    | yes before ↦
        let (b', at, counts', holds', fits') =
          q.stored j c' (sym (get_elem?-append_lt pending (c ∷ []) j before) ∙ e) in
        let apart : r.tail % r.queue_size ≢ (r.head + j) % r.queue_size = λ x.
          mod_ne r.queue_size (r.head + j) (length pending - j) (omega arith) (omega arith)
            (sym x ∙ ap (λ y. y % r.queue_size) (omega (arith, q.counted))) in
        (
          b',
          get_elem?-set_ne r.buffers (r.tail % r.queue_size) ((r.head + j) % r.queue_size) b apart
              ∙ at,
          counts',
          holds',
          fits',
        )
    | no after ↦
        let last : j ≡ length pending + 0 =
          omega
            (arith, lt-get_elem? (pending ++ (c ∷ [])) j c' e, length-append pending (c ∷ [])) in
        let it_is : c ≡ c' = some-injective _ _ (
          sym (get_elem?-append_right pending (c ∷ []) 0)
          ∙ ap (get_elem? (pending ++ (c ∷ []))) (sym last)
          ∙ e) in
        let place : r.tail % r.queue_size ≡ (r.head + j) % r.queue_size =
          ap (λ x. x % r.queue_size) (omega (arith, q.counted)) in
        let inside : r.tail % r.queue_size < length r.buffers =
          omega (arith, q.complete, q.nonempty) in
        subst (λ x. Stores (filled (r.tail % r.queue_size) b) x c') place
          (subst (Stores (filled (r.tail % r.queue_size) b) (r.tail % r.queue_size)) it_is
            (b, get_elem?-set_self r.buffers (r.tail % r.queue_size) b inside, counts, holds, fits))
  ]

  -- A chunk of at most a block that is put into a ring with room is the last one of the queue.
  pub put_chunk_lem :
      (pending : List Text) (ifs : Text) (md : BlockInfo)
      → IsQueue block_size r pending
      → length pending < r.queue_size
      → md.size ≤ length ifs
      → md.size ≤ block_size
      → r.tail + 1 < 2 ^ 32
      → (r' : Ring) × (put_chunk ifs md r ≡ some (r', drop md.size ifs))
        × IsQueue block_size r' (pending ++ (take md.size ifs ∷ []))
        × (r'.is_done ≡ r.is_done)
        × (r'.queue_size ≡ r.queue_size)
        × (r'.tail ≡ r.tail + 1)
  unfolding put_chunk
  put_chunk_lem pending ifs md q h long fits small =
      let bytes = take md.size ifs in
      let i = r.tail % r.queue_size in
      let (b, at) = get_elem?-lt r.buffers i (omega (arith, q.complete, q.nonempty)) in
      let sized : length bytes ≡ md.size = omega (arith, length-take md.size ifs) in
      let whole = q.wide i b at in
      let inside : ltb (length b.buf) (length bytes) ≡ false = ground arith in
      let new : Buffer = record {
        buf = bytes ++ drop (length bytes) b.buf;
        chunk_size = md.size;
        chunk_index = md.seq;
      } in
      let long' : length new.buf ≡ block_size = omega (
        arith,
        length-append bytes (drop (length bytes) b.buf),
        length-drop (length bytes) b.buf,
      ) in
      let next : (r.tail + 1) % 2 ^ 32 ≡ r.tail + 1 = omega arith in
      (
        filled i new,
        rw (slot_lem pending r.tail q, ◌>>=◌, at, inside) refl,
        record {
          nonempty = q.nonempty;
          complete = length-set r.buffers i new ∙ q.complete;
          counted = omega (arith, q.counted, length-append pending (bytes ∷ []));
          room = omega (arith, length-append pending (bytes ∷ []));
          below = omega arith;
          stored =
              stored-filled pending bytes new q h (sym sized)
                (take-append_le (length bytes) bytes (drop (length bytes) b.buf) (omega arith)
                  ∙ take_all bytes)
                (omega arith);
          wide = wide-set pending i new q long';
        },
        refl,
        refl,
        next,
      )

  -- With room the chunk is put in and the other is signalled.
  pub produce_room :
      (pending : List Text) (ifs : Text) (md : BlockInfo) (r' : Ring)
      → IsQueue block_size r pending
      → length pending < r.queue_size
      → put_chunk ifs md r ≡ some (r', drop md.size ifs)
      → produce ifs md r ≡ some (wrote r' (drop md.size ifs) true)
  unfolding produce
  produce_room pending ifs md r' q h put =
      let open_ : ltb (in_use r) r.queue_size ≡ true = ground (arith, in_use_lem pending q) in
      rw (open_, put, ◌>>=◌) refl

  pub after_wait_lem :
      (ifs : Text) (md : BlockInfo) (r' : Ring)
      → put_chunk ifs md r ≡ some (r', drop md.size ifs)
      → after_wait ifs md r ≡ some (wrote r' (drop md.size ifs) false)
  unfolding after_wait
  after_wait_lem ifs md r' put = rw (put, ◌>>=◌) refl

  pub read_empty :
      IsQueue block_size r [] → read_chunk r ≡ some (if r.is_done then no_more else is_empty)
  unfolding read_chunk
  read_empty q =
      let none_left : (in_use r == 0) ≡ true = ground (arith, in_use_lem [] q) in rw none_left refl

  -- A read gives the first chunk of the queue and leaves the others.
  pub read_lem :
      (c : Text) (pending : List Text)
      → IsQueue block_size r (c ∷ pending)
      → IsZeroFree c
      → (r' : Ring) × (read_chunk r ≡ some (took c r'))
        × IsQueue block_size r' pending
        × (r'.is_done ≡ r.is_done)
        × (r'.queue_size ≡ r.queue_size)
        × (r'.tail ≡ r.tail)
  unfolding read_chunk
  read_lem c pending q solid =
      let there : (in_use r == 0) ≡ false = ground (arith, in_use_lem (c ∷ pending) q) in
      let here : r.head + 0 ≡ r.head = omega arith in
      let (b, at, counts, holds, fits) =
        subst (λ i. Stores r (i % r.queue_size) c) here (q.stored 0 c refl) in
      let i = r.head % r.queue_size in
      let inside : ltb (length b.buf) b.chunk_size ≡ false = ground arith in
      let cleared : Buffer = record b {
        buf = replicate b.chunk_size 0 ++ drop b.chunk_size b.buf;
      } in
      let whole = q.wide i b at in
      let long : length cleared.buf ≡ block_size = omega (
        arith,
        length-append (replicate b.chunk_size 0) (drop b.chunk_size b.buf),
        length-drop b.chunk_size b.buf,
        length-replicate {A = ℕ} b.chunk_size 0,
      ) in
      let next : (r.head + 1) % 2 ^ 32 ≡ r.head + 1 = omega (arith, q.counted, q.below) in
      let copied : strncpy b.chunk_size b.buf ≡ c =
        ap (λ n. strncpy n b.buf) counts ∙ strncpy_lem c b.buf solid holds in
      let r' : Ring = record r {
        buffers = set r.buffers i cleared;
        head = (r.head + 1) % 2 ^ 32;
      } in
      (
        r',
        rw (there, slot_lem (c ∷ pending) r.head q, ◌>>=◌, at, inside)
            (ap (λ t. some (took t r')) copied),
        record {
          nonempty = q.nonempty;
          complete = length-set r.buffers i cleared ∙ q.complete;
          counted = omega (arith, q.counted);
          room = omega (arith, q.room);
          below = q.below;
          stored = λ j c' e.
              let up : (r.head + 1) % 2 ^ 32 + j ≡ r.head + suc j = omega arith in
              let below_j = lt-get_elem? pending j c' e in
              let apart : i ≢ (r.head + suc j) % r.queue_size =
                mod_ne r.queue_size r.head (suc j) (omega arith) (omega (arith, q.room, below_j)) in
              let (b', at', counts', holds', fits') = q.stored (suc j) c' e in
              subst (λ x. Stores r' (x % r.queue_size) c') (sym up)
                (
                  b',
                  get_elem?-set_ne r.buffers i ((r.head + suc j) % r.queue_size) cleared apart
                      ∙ at',
                  counts',
                  holds',
                  fits',
                );
          wide = wide-set (c ∷ pending) i cleared q long;
        },
        refl,
        refl,
        refl,
      )

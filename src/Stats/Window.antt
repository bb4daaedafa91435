-- ===== src/Stats/Window.antt =====
-- The histories of core/src/{channel_stats,actor_stats}.rs are a rolling window over the frames.
use native.Mathlib.Nat.{add-mul, mul-le-mul_right, one-le-pow, suc-mul, zero-mul}
use steady_state_stack.Stats.{
  ChannelBlock, Histograms, Measure, Rolling, add_frame, pop_front, push_back, roll, tick,
}
use steady_state_stack.Common.{
  Bool-cases, List, Option, [], ap, arith, drop, drop-append, drop_all, if_intro, if◌then◌else◌,
  inl, inr, leb, leb→le, length, length-append, length-drop, map, none, refl, some, subst, suc, sym,
  take, take-append_within, take_whole, ℕ, ◌*◌, ◌++◌, ◌+◌, ◌-◌, ◌<◌, ◌^◌, ◌∙◌, ◌∷◌, ◌≡◌, ◌≤◌,
}

module _ {H P S : Type 0} (lib : Histograms H P) (measure : Measure H S) where
  -- What a block holds after some frames: the frames one by one.
  abbrev pub gather : ChannelBlock H → List S → ChannelBlock H
  gather block [] = block
  gather block (frame ∷ frames) = gather (add_frame lib measure frame block) frames

  gather-append :
      (block : ChannelBlock H) (xs ys : List S)
      → gather block (xs ++ ys) ≡ gather (gather block xs) ys
  gather-append block [] ys = refl
  gather-append block (x ∷ xs) ys = gather-append (add_frame lib measure x block) xs ys

  module _ (r w : ℕ) (fresh : ChannelBlock H) where
    -- The blocks from the bucket `i` on have seen the frames from that bucket on.
    abbrev IsHistory : List S → ℕ → List (ChannelBlock H) → Type 0
    IsHistory seen i [] = Unit
    IsHistory seen i (block ∷ history) =
        (block ≡ gather fresh (drop (i * 2 ^ r) seen)) × IsHistory seen (suc i) history

    -- The frames of the last complete window, when `complete` buckets are complete.
    abbrev pub window : List S → ℕ → List S
    window seen complete = take (2 ^ w * 2 ^ r) (drop ((complete - 2 ^ w) * 2 ^ r) seen)

    -- The state after the frames `seen`.
    pub record IsWindow (seen : List S) (count : ℕ) (rolling : Rolling H) : Type 0 where
      pub complete : ℕ
      pub frames : length seen ≡ complete * 2 ^ r + count
      pub within : count < 2 ^ r
      pub blocks : (suc complete - 2 ^ w) + length rolling.history ≡ suc complete
      pub history : IsHistory seen (suc complete - 2 ^ w) rolling.history
      pub early : complete < 2 ^ w → rolling.current ≡ none
      pub late : 2 ^ w ≤ complete → rolling.current ≡ some (gather fresh (window seen complete))

    IsHistory-add :
        (seen : List S) (frame : S) (complete i : ℕ) (history : List (ChannelBlock H))
        → complete * 2 ^ r ≤ length seen
        → i + length history ≡ suc complete
        → IsHistory seen i history
        → IsHistory (seen ++ frame ∷ []) i (map (add_frame lib measure frame) history)
    IsHistory-add seen frame complete i [] low n h = tt
    IsHistory-add seen frame complete i (block ∷ history) low n h =
        let here : i * 2 ^ r ≤ length seen =
          omega (arith, mul-le-mul_right {m = i} {n = complete} (2 ^ r) (omega (arith, n))) in
        (
          ap (add_frame lib measure frame) h.0
              ∙ sym (gather-append fresh (drop (i * 2 ^ r) seen) (frame ∷ []))
              ∙ ap (gather fresh) (sym (drop-append (i * 2 ^ r) seen (frame ∷ []) here)),
          IsHistory-add seen frame complete (suc i) history low (omega (arith, n)) h.1,
        )

    length-map_add :
        (frame : S) (history : List (ChannelBlock H))
        → length (map (add_frame lib measure frame) history) ≡ length history
    length-map_add frame [] = refl
    length-map_add frame (block ∷ history) = ap suc (length-map_add frame history)

    IsHistory-push :
        (seen : List S) (i n : ℕ) (history : List (ChannelBlock H))
        → i + length history ≡ n
        → length seen ≡ n * 2 ^ r
        → IsHistory seen i history
        → IsHistory seen i (history ++ fresh ∷ [])
    IsHistory-push seen i n [] e len h =
        let at : i ≡ n = omega (arith, e) in
        (
          ap (gather fresh)
              (sym (drop_all (i * 2 ^ r) seen (omega (arith, len, ap (λ k. k * 2 ^ r) at)))),
          tt,
        )
    IsHistory-push seen i n (block ∷ history) e len h =
        (h.0, IsHistory-push seen (suc i) n history (omega (arith, e)) len h.1)

    -- A later frame does not change a window that was complete.
    same_window :
        (seen : List S) (frame : S) (complete : ℕ)
        → 2 ^ w ≤ complete
        → complete * 2 ^ r ≤ length seen
        → window (seen ++ frame ∷ []) complete ≡ window seen complete
    same_window seen frame complete le low =
        let start = (complete - 2 ^ w) * 2 ^ r in
        let sum : start + 2 ^ w * 2 ^ r ≡ complete * 2 ^ r =
          sym (add-mul (complete - 2 ^ w) (2 ^ w) (2 ^ r))
          ∙ ap (λ k. k * 2 ^ r) (omega (arith, le)) in
        ap (take (2 ^ w * 2 ^ r)) (drop-append start seen (frame ∷ []) (omega (arith, sum)))
        ∙ take-append_within (2 ^ w * 2 ^ r) (drop start seen) (frame ∷ [])
            (omega (arith, length-drop start seen, sum))

    -- A frame that completes no bucket.
    IsWindow-within :
        (seen : List S) (frame : S) (count : ℕ) (rolling : Rolling H)
        → suc count < 2 ^ r
        → IsWindow seen count rolling
        → IsWindow
            (seen ++ frame ∷ [])
            (suc count)
            (record rolling { history = map (add_frame lib measure frame) rolling.history })
    IsWindow-within seen frame count rolling more h =
        let low : h.complete * 2 ^ r ≤ length seen = omega (arith, h.frames) in
        record {
          complete = h.complete;
          frames = omega (arith, h.frames, length-append seen (frame ∷ []));
          within = more;
          blocks = omega (arith, h.blocks, length-map_add frame rolling.history);
          history =
              IsHistory-add seen frame h.complete (suc h.complete - 2 ^ w) rolling.history low
                h.blocks h.history;
          early = h.early;
          late = λ le.
              h.late le
              ∙ ap some (ap (gather fresh) (sym (same_window seen frame h.complete le low)));
        }

    -- The first block of a full history has seen just the window.
    IsWindow-pop :
        (seen : List S) (b : ℕ) (block : ChannelBlock H) (rest : List (ChannelBlock H))
        → 2 ^ w ≤ suc (length rest)
        → (suc b - 2 ^ w) + suc (length rest) ≡ suc b
        → length seen ≡ suc b * 2 ^ r
        → IsHistory seen (suc b - 2 ^ w) (block ∷ rest)
        → IsWindow seen 0 (record { history = rest ++ fresh ∷ []; current = some block })
    IsWindow-pop seen b block rest full blocks len h =
        let some_block = one-le-pow w 2 (omega arith) in
        let start = (suc b - 2 ^ w) * 2 ^ r in
        let le : 2 ^ w ≤ suc b = omega arith in
        let sum : start + 2 ^ w * 2 ^ r ≡ suc b * 2 ^ r =
          sym (add-mul (suc b - 2 ^ w) (2 ^ w) (2 ^ r)) ∙ ap (λ k. k * 2 ^ r) (omega (arith, le)) in
        record {
          complete = suc b;
          frames = omega (arith, len);
          within = one-le-pow r 2 (omega arith);
          blocks = omega (arith, blocks, length-append rest (fresh ∷ []));
          history =
              subst (λ i. IsHistory seen i (rest ++ fresh ∷ [])) (omega (arith, le))
                (IsHistory-push seen (suc (suc b - 2 ^ w)) (suc b) rest (omega (arith, blocks)) len
                  h.1);
          early = λ lt. absurd (omega (arith, le));
          late = λ _. ap some (
              h.0
              ∙ ap (gather fresh) (
                  sym (
                    take_whole (2 ^ w * 2 ^ r) (drop start seen)
                      (omega (arith, length-drop start seen, len, sum)))));
        }

    IsWindow-grow :
        (seen : List S) (b : ℕ) (history : List (ChannelBlock H))
        (current : Option (ChannelBlock H))
        → length history < 2 ^ w
        → (suc b - 2 ^ w) + length history ≡ suc b
        → length seen ≡ suc b * 2 ^ r
        → current ≡ none
        → IsHistory seen (suc b - 2 ^ w) history
        → IsWindow seen 0 (record { history = history ++ fresh ∷ []; current = current })
    IsWindow-grow seen b history current short blocks len unset h = record {
      complete = suc b;
      frames = omega (arith, len);
      within = one-le-pow r 2 (omega arith);
      blocks = omega (arith, blocks, length-append history (fresh ∷ []));
      history =
          subst (λ i. IsHistory seen i (history ++ fresh ∷ [])) (omega (arith, short, blocks))
            (IsHistory-push seen (suc b - 2 ^ w) (suc b) history blocks len h);
      early = λ _. unset;
      late = λ le. absurd (omega (arith, blocks));
    }

    -- A frame that completes a bucket.
    IsWindow-roll :
        (seen : List S) (b : ℕ) (history : List (ChannelBlock H))
        (current : Option (ChannelBlock H))
        → (suc b - 2 ^ w) + length history ≡ suc b
        → length seen ≡ suc b * 2 ^ r
        → (b < 2 ^ w → current ≡ none)
        → IsHistory seen (suc b - 2 ^ w) history
        → IsWindow seen 0 (roll w (some fresh) (record { history = history; current = current }))
    IsWindow-roll seen b [] current blocks len early h =
        let some_block = one-le-pow w 2 (omega arith) in absurd (omega (arith, blocks))
    IsWindow-roll seen b (block ∷ rest) current blocks len early h =
        if_intro
          (λ popped.
            IsWindow seen 0 (record popped { history = push_back popped.history (some fresh) }))
          (leb (2 ^ w) (length (block ∷ rest))) (pop_front (block ∷ rest))
          (record { history = block ∷ rest; current = current })
          (λ t. IsWindow-pop seen b block rest (leb→le (2 ^ w) (suc (length rest)) t) blocks len h)
          (λ f.
            let short : length (block ∷ rest) < 2 ^ w = ground arith in
            IsWindow-grow seen b (block ∷ rest) current short blocks len
              (early (omega (arith, blocks))) h)

    -- One frame: the count of its bucket goes up, and back to none when the bucket is complete.
    abbrev pub next_count : ℕ → ℕ
    next_count count = if leb (2 ^ r) count then 0 else count

    tick_counted :
        (seen : List S) (frame : S) (count : ℕ) (rolling : Rolling H)
        → IsWindow seen count rolling
        → IsWindow
            (seen ++ frame ∷ [])
            (next_count (suc count))
            (tick lib measure r w (some fresh) (suc count) frame rolling)
    unfolding tick
    tick_counted seen frame count rolling h =
        let added = map (add_frame lib measure frame) rolling.history in
        let longer = length-append seen (frame ∷ []) in
        elim (Bool-cases (leb (2 ^ r) (suc count))) [
          | inl t ↦
              let le = leb→le (2 ^ r) (suc count) t in
              rw t (
                IsWindow-roll (seen ++ frame ∷ []) h.complete added rolling.current
                  (omega (arith, h.blocks, length-map_add frame rolling.history))
                  (omega (arith, h.frames, longer, suc-mul h.complete (2 ^ r), h.within)) h.early
                  (IsHistory-add seen frame h.complete (suc h.complete - 2 ^ w) rolling.history
                    (omega (arith, h.frames)) h.blocks h.history))
          | inr f ↦ rw f (IsWindow-within seen frame count rolling (ground arith) h)
        ]

    pub tick-IsWindow :
        (seen : List S) (frame : S) (count : ℕ) (rolling : Rolling H)
        → IsWindow seen count rolling
        → IsWindow
            (seen ++ frame ∷ [])
            (next_count (count + 1))
            (tick lib measure r w (some fresh) (count + 1) frame rolling)
    tick-IsWindow seen frame count rolling h =
        let e : suc count ≡ count + 1 = omega arith in
        subst
          (λ n.
            IsWindow (seen ++ frame ∷ []) (next_count n)
              (tick lib measure r w (some fresh) n frame rolling))
          e (tick_counted seen frame count rolling h)

    pub IsWindow-new : IsWindow [] 0 (record { history = fresh ∷ []; current = none })
    IsWindow-new =
        let some_block = one-le-pow w 2 (omega arith) in
        record {
          complete = 0;
          frames = omega (arith, zero-mul (2 ^ r));
          within = one-le-pow r 2 (omega arith);
          blocks = omega (arith, some_block);
          history = (
            ap (gather fresh) (sym (drop_all {A = S} ((1 - 2 ^ w) * 2 ^ r) [] (omega arith))),
            tt,
          );
          early = λ _. refl;
          late = λ le. absurd (omega (arith, some_block));
        }

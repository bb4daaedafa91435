-- ===== src/Stream/Delivery.antt =====
-- `consume_messages` of core/src/distributed/aqueduct_stream_rx.rs shows the messages of the stream.
use steady_state_stack.Stream.Frames.{bytes_of, drop_front, items_of, take_front}
use steady_state_stack.Stream.Consume.{
  Cursor, Progress, consume_item, consume_slice, extract_stream_payload_slices,
}
use steady_state_stack.Stream.Walk.{IsAt, extract_stream_payload_slices_lem}
use steady_state_stack.Common.{
  All, Bool, Bool-cases, List, [], ap, ap₂, arith, done, drop, drop-drop, false, inl, inr, length,
  length-append, ltb, refl, subst, sym, take, true, ℕ, ◌++◌, ◌+◌, ◌>>=◌, ◌∙◌, ◌∷◌, ◌≡◌, ◌⊎◌,
}

-- The messages one by one, until the bytes pass the limit or the function has enough: what the function
-- has come to, and the messages that are left.
abbrev pub deliver :
    {Item F : Type 0}
    → ℕ
    → (F → List ℕ → Bool × F)
    → ℕ
    → F
    → List (Item × List ℕ)
    → F × List (Item × List ℕ)
deliver byte_limit show passed seen [] = (seen, [])
deliver byte_limit show passed seen ((item, bytes) ∷ messages) =
    elim (ltb byte_limit (passed + length bytes)) [
      | true ↦ (seen, (item, bytes) ∷ messages)
      | false ↦ elim (show seen bytes).0 [
        | false ↦ ((show seen bytes).1, (item, bytes) ∷ messages)
        | true ↦ deliver byte_limit show (passed + length bytes) (show seen bytes).1 messages
      ]
    ]

head-eq : {A : Type 0} {x y : A} {xs ys : List A} → x ∷ xs ≡ y ∷ ys → x ≡ y
head-eq h = cc

tail-eq : {A : Type 0} {x y : A} {xs ys : List A} → x ∷ xs ≡ y ∷ ys → xs ≡ ys
tail-eq h = cc

pub split_items :
    {Item : Type 0} (xs ys : List Item) (messages : List (Item × List ℕ))
    → xs ++ ys ≡ items_of messages
    → (now : List (Item × List ℕ)) × (more : List (Item × List ℕ)) × (messages ≡ now ++ more)
      × (items_of now ≡ xs)
      × (items_of more ≡ ys)
split_items [] ys messages e = ([], messages, refl, refl, sym e)
split_items (x ∷ xs) ys [] e = cc
split_items (x ∷ xs) ys ((item, bytes) ∷ messages) e =
    let (now, more, parts, first, second) = split_items xs ys messages (tail-eq e) in
    (
      (item, bytes) ∷ now,
      more,
      ap (λ ms. (item, bytes) ∷ ms) parts,
      ap₂ (λ i is. i ∷ is) (sym (head-eq e)) first,
      second,
    )

module _ {Item F : Type 0} (len : Item → ℕ) (byte_limit : ℕ) (fun : F → List ℕ → List ℕ → Bool × F)
    (show : F → List ℕ → Bool × F)
    (whole : (seen : F) (a b : List ℕ) → fun seen a b ≡ show seen (a ++ b))
    (payload1 payload2 : List ℕ) (all : List (Item × List ℕ))
    (both : payload1 ++ payload2 ≡ bytes_of all) where
  -- What is left of the messages when `g` is done.
  pub record IsLeft (g : Progress F) (rest : List (Item × List ℕ)) : Type 0 where
    pub bytes : drop g.active_data (bytes_of all) ≡ bytes_of rest
    pub items : drop g.active_items (items_of all) ≡ items_of rest
    pub byte_count : g.active_data + length (bytes_of rest) ≡ length (bytes_of all)
    pub item_count : g.active_items + length (items_of rest) ≡ length (items_of all)
    pub framed : All (λ m. len m.0 ≡ length m.1) rest

  -- The next message is extracted.
  extract_message :
      (g : Progress F) (item : Item) (bytes : List ℕ) (rest : List (Item × List ℕ))
      → IsLeft g ((item, bytes) ∷ rest)
      → IsAt payload1 g.cursor g.active_data
      → (a : List ℕ) × (b : List ℕ) × (after : Cursor) × (extract_stream_payload_slices payload1
            payload2 g.cursor
            (len item)
          ≡ done ((a, b), after))
        × (a ++ b ≡ bytes)
        × IsAt payload1 after (g.active_data + len item)
  extract_message g item bytes rest h place =
      let sizes : length payload1 + length payload2 ≡ length (bytes_of all) =
        sym (length-append payload1 payload2) ∙ ap length both in
      let (a, b, after, run, next, place') =
        extract_stream_payload_slices_lem payload1 payload2 g.cursor g.active_data (len item) place
          (omega (arith, sizes, h.byte_count, h.framed.0, length-append bytes (bytes_of rest))) in
      (
        a,
        b,
        after,
        run,
        next
            ∙ ap (λ bs. take (len item) (drop g.active_data bs)) both
            ∙ ap (take (len item)) h.bytes
            ∙ ap (λ n. take n (bytes ++ bytes_of rest)) h.framed.0
            ∙ take_front bytes (bytes_of rest),
        place',
      )

  abbrev taken_on : Progress F → Item → Cursor → F → Progress F
  taken_on g item cursor seen = record {
    cursor = cursor;
    active_items = g.active_items + 1;
    active_data = g.active_data + len item;
    seen = seen;
  }

  IsLeft-taken_on :
      (g : Progress F) (item : Item) (bytes : List ℕ) (rest : List (Item × List ℕ))
      (cursor : Cursor) (seen : F)
      → IsLeft g ((item, bytes) ∷ rest)
      → IsLeft (taken_on g item cursor seen) rest
  IsLeft-taken_on g item bytes rest cursor seen h = record {
    bytes =
        sym (drop-drop (len item) g.active_data (bytes_of all))
        ∙ ap (drop (len item)) h.bytes
        ∙ ap (λ n. drop n (bytes ++ bytes_of rest)) h.framed.0
        ∙ drop_front bytes (bytes_of rest);
    items = sym (drop-drop 1 g.active_items (items_of all)) ∙ ap (drop 1) h.items;
    byte_count = omega (arith, h.byte_count, h.framed.0, length-append bytes (bytes_of rest));
    item_count = omega (arith, h.item_count);
    framed = h.framed.1;
  }

  -- A message that is shown: the loop is left, with all that is left, or goes on.
  consume_item_lem :
      (g : Progress F) (item : Item) (bytes : List ℕ) (rest : List (Item × List ℕ)) (a b : List ℕ)
      (cursor : Cursor)
      → len item ≡ length bytes
      → a ++ b ≡ bytes
      → let expected = deliver byte_limit show g.active_data g.seen ((item, bytes) ∷ rest) in
        ((seen : F) × (consume_item len byte_limit fun payload1 payload2 item g a b cursor
            ≡ (true, record g { cursor = cursor; seen = seen }))
          × (expected ≡ (seen, (item, bytes) ∷ rest)))
        ⊎ ((seen : F) × (consume_item len byte_limit fun payload1 payload2 item g a b cursor
              ≡ (false, taken_on g item cursor seen))
            × (expected ≡ deliver byte_limit show (g.active_data + len item) seen rest))
  unfolding consume_item
  consume_item_lem g item bytes rest a b cursor framed same =
      let shown : fun g.seen a b ≡ show g.seen bytes = whole g.seen a b ∙ ap (show g.seen) same in
      let size : length bytes ≡ len item = sym framed in
      let seen = (show g.seen bytes).1 in
      let over = ap (λ n. ltb byte_limit (g.active_data + n)) size in
      elim (Bool-cases (ltb byte_limit (g.active_data + len item))) [
        | inl t ↦ inl (g.seen, rw (consume_item, t) refl, rw (deliver, over ∙ t) refl)
        | inr f ↦ elim (Bool-cases (show g.seen bytes).0) [
          | inl t ↦ inr (
            seen,
            rw (consume_item, f)
                (rw (shown, t) (ap (λ r. (false, taken_on g item cursor r.1)) shown)),
            rw (deliver, over ∙ f)
                (rw t (ap (λ n. deliver byte_limit show (g.active_data + n) seen rest) size)),
          )
          | inr f' ↦ inl (
            seen,
            rw (consume_item, f)
                (rw (shown, f') (ap (λ r. (true, record g { cursor = cursor; seen = r.1 })) shown)),
            rw (deliver, over ∙ f) (rw f' refl),
          )
        ]
      ]

  -- How a loop over some of the items ends: left early with what `deliver` says, or on to the others.
  unfoldable pub IsOver :
      Bool → Progress F → List (Item × List ℕ) → F × List (Item × List ℕ) → Type 0
  IsOver stopped g more expected =
      ((stopped ≡ true)
        × (rest : List (Item × List ℕ)) × IsLeft g rest
        × (expected ≡ (g.seen, rest)))
      ⊎ ((stopped ≡ false)
          × IsLeft g more
          × IsAt payload1 g.cursor g.active_data
          × (expected ≡ deliver byte_limit show g.active_data g.seen more))

  pub consume_slice_lem :
      (now more : List (Item × List ℕ)) (g : Progress F)
      → IsLeft g (now ++ more)
      → IsAt payload1 g.cursor g.active_data
      → (stopped : Bool) × (after : Progress F) × (consume_slice len byte_limit fun payload1
            payload2
            (items_of now)
            g
          ≡ done (stopped, after))
        × IsOver stopped after more (deliver byte_limit show g.active_data g.seen (now ++ more))
  unfolding consume_slice IsOver
  consume_slice_lem [] more g h place = (false, g, refl, inr (refl, h, place, refl))
  consume_slice_lem ((item, bytes) ∷ now) more g h place =
      let (a, b, cursor, run, same, place') = extract_message g item bytes (now ++ more) h place in
      elim (consume_item_lem g item bytes (now ++ more) a b cursor h.framed.0 same) [
        | inl over ↦
            let (seen, shown, expected) = over in
            (
              true,
              record g { cursor = cursor; seen = seen },
              rw run (rw (◌>>=◌, shown) (ap done shown)),
              inl (
                refl,
                (item, bytes) ∷ (now ++ more),
                record {
                  bytes = h.bytes;
                  items = h.items;
                  byte_count = h.byte_count;
                  item_count = h.item_count;
                  framed = h.framed;
                },
                expected,
              ),
            )
        | inr on ↦
            let (seen, shown, expected) = on in
            let next = taken_on g item cursor seen in
            let (stopped, after, runs, end) =
              consume_slice_lem now more next
                (IsLeft-taken_on g item bytes (now ++ more) cursor seen h) place' in
            (
              stopped,
              after,
              rw run (
                  rw (◌>>=◌, shown)
                    (ap (λ r. consume_slice len byte_limit fun payload1 payload2 (items_of now) r.1)
                        shown
                      ∙ runs)),
              subst (IsOver stopped after more) (sym expected) end,
            )
      ]

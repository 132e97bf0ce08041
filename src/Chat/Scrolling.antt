-- ===== src/Chat/Scrolling.antt =====
-- Scrolling back through GET /chat/messages of internal/chat: the client asks for a page, and for the next one
-- before the oldest message of it, as long as the answer says that there are more.
pub mod Order
use mathlib.Core.List.{reverse-append}
use mathlib.Core.Path.{subst}
use marco_api.Base.{
  ℕ, zero, suc, ◌+◌, ◌≤◌, ◌<◌, ◌≡◌, refl, ap, sym, ◌∙◌, arith, String, Bool, true, false, Option,
  none, some, List, [], ◌∷◌, ◌++◌, map, reverse, ◌==◌, ◌&&◌, ltb, leb, length, take, if◌then◌else◌,
  Uuid, Time, keep, keep-keep, count_where, count_where-keep, ltb→lt, order_by, All, Bool-cases,
  inl, inr,
}
use marco_api.Base.Db.{DbError, Result, ok, err, World, Db, attempt, statement, pure, on_error}
use marco_api.Base.Db.Success.{on_error_runs}
use marco_api.Base.Int.{ℤ}
use marco_api.Marco.{MatchLogToken, MatchPrepToken}
use marco_api.Chat.{MessageRow, Message, ChatTables, cut_page}
use marco_api.Chat.Store.{
  is_visible, is_before, before_message, clamp_limit, scan_message, select_messages, get_history,
}
use marco_api.Chat.Paging.{IsDescending, older}
use marco_api.Chat.Paging.Step.{Step, step, All-keep, Descending-keep}
use marco_api.Chat.Scrolling.Order.{
  keep-and, cut_page-take, map-take, map-keep, keep-order_by, order_by-IsDescending, time_of,
}

abbrev pub sent_at : Message → Time
sent_at m = m.created_at

-- A world in which every statement runs.
abbrev pub steady : ChatTables → Time → Uuid → World ChatTables
steady s t n = record { tables = s; now = t; next_id = n; faults = [] }

abbrev turned : List Message × Bool → List Message × Bool
turned (page, has_more) = (reverse page, has_more)

keep-true : (ms : List Message) → keep (λ _. true) ms ≡ ms
unfolding keep
keep-true [] = refl
keep-true (m ∷ ms) = ap (λ l. m ∷ l) (keep-true ms)

cut_page-last :
    (limit : ℕ) (ms : List Message)
    → ltb limit (length ms) ≡ false
    → cut_page sent_at limit ms ≡ (ms, false)
unfolding cut_page
cut_page-last limit ms h = ground arith

ends :
    (zs : List Message) {xs ys : List Message} {fuel : ℕ}
    → xs ≡ ys
    → length xs < length zs
    → length zs < suc fuel
    → length ys < fuel
ends zs e h k = omega (arith, ap length e, h, k)

-- What the client does with an answer.
unfoldable next_page :
    (Option Time → Db ChatTables (Result DbError (List Message)))
    → List Message × Bool
    → Db ChatTables (Result DbError (List Message))
next_page request (page, false) = pure (ok page)
next_page request ([], true) = pure (ok [])
next_page request (oldest ∷ others, true) =
    on_error (request (some oldest.created_at)) (λ e. pure (err e))
      λ older_ones. pure (ok (older_ones ++ oldest ∷ others))

module _ (unmarshal_log : String → Option MatchLogToken)
    (unmarshal_prep : String → Option MatchPrepToken) where
  -- The client, with the number of requests that it makes at most.
  unfoldable pub scroll : ℕ → Uuid → ℤ → Option Time → Db ChatTables (Result DbError (List Message))
  unfolding get_history next_page
  scroll zero user_id limit before = pure (ok [])
  scroll (suc fuel) user_id limit before =
      on_error (get_history unmarshal_log unmarshal_prep user_id limit before) (λ e. pure (err e))
        (next_page (scroll fuel user_id limit))

  -- The messages that the user can see, from the newest to the oldest.
  unfoldable pub visible : Uuid → ChatTables → List Message
  visible user_id s =
      map (scan_message unmarshal_log unmarshal_prep s.logged_messages s.spawned)
        (order_by before_message (keep (is_visible user_id) s.messages))

  -- Those of them before a cursor.
  abbrev visible_before : Option Time → Uuid → ChatTables → List Message
  visible_before before user_id s = keep (λ m. is_before before (sent_at m)) (visible user_id s)

  IsDescending-map :
      (logged : List Uuid) (spawned : List marco_api.Chat.Spawned) (rows : List MessageRow)
      → IsDescending time_of rows
      → IsDescending sent_at (map (scan_message unmarshal_log unmarshal_prep logged spawned) rows)
  unfolding scan_message
  IsDescending-map logged spawned [] d = tt
  IsDescending-map logged spawned (m ∷ rows) (top, d) =
      (tops rows top, IsDescending-map logged spawned rows d)
    where
      tops :
          (rows : List MessageRow)
          → All (λ (y : MessageRow). y.created_at ≤ m.created_at) rows
          → All
              (λ (y : Message). y.created_at ≤ m.created_at)
              (map (scan_message unmarshal_log unmarshal_prep logged spawned) rows)
      tops [] h = tt
      tops (y ∷ rows) (k, h) = (k, tops rows h)

  visible-IsDescending :
      (user_id : Uuid) (s : ChatTables) → IsDescending sent_at (visible user_id s)
  unfolding visible
  visible-IsDescending user_id s =
      IsDescending-map s.logged_messages s.spawned _
        (order_by-IsDescending (keep (is_visible user_id) s.messages))

  -- What GetHistory answers, of the visible messages before the cursor.
  answer : Uuid → ℤ → Option Time → ChatTables → List Message × Bool
  answer user_id limit before s =
      turned (cut_page sent_at (clamp_limit limit) (visible_before before user_id s))

  select-visible :
      (user_id : Uuid) (before : Option Time) (fetch : ℕ) (s : ChatTables)
      → map (scan_message unmarshal_log unmarshal_prep s.logged_messages s.spawned) (
          take fetch (
            order_by before_message
              (keep (λ m. is_visible user_id m && is_before before m.created_at) s.messages)))
        ≡ take fetch (visible_before before user_id s)
  unfolding visible scan_message
  select-visible user_id before fetch s =
      let scan = scan_message unmarshal_log unmarshal_prep s.logged_messages s.spawned in
      map-take scan fetch _
      ∙ ap (λ l. take fetch (map scan l))
          (ap (order_by before_message)
              (keep-and (is_visible user_id) (λ m. is_before before m.created_at) s.messages)
            ∙ keep-order_by before (keep (is_visible user_id) s.messages))
      ∙ ap (take fetch) (
          map-keep scan (λ m. is_before before (sent_at m))
            (order_by before_message (keep (is_visible user_id) s.messages)))

  get_history-answer :
      (user_id : Uuid) (limit : ℤ) (before : Option Time) (s : ChatTables) (t : Time) (n : Uuid)
      → get_history unmarshal_log unmarshal_prep user_id limit before (steady s t n)
        ≡ (ok (answer user_id limit before s), steady s t (suc n))
  unfolding get_history select_messages statement attempt on_error pure answer
  get_history-answer user_id limit before s t n =
      let k = clamp_limit limit in
      ap (λ l. (ok (turned (cut_page sent_at k l)), steady s t (suc n)))
        (select-visible user_id before (suc k) s)
      ∙ ap (λ c. (ok (turned c), steady s t (suc n)))
          (cut_page-take sent_at k (visible_before before user_id s))

  scroll-answer :
      (fuel : ℕ) (user_id : Uuid) (limit : ℤ) (before : Option Time) (s : ChatTables) (t : Time)
      (n : Uuid)
      → scroll (suc fuel) user_id limit before (steady s t n)
        ≡ next_page (scroll fuel user_id limit) (answer user_id limit before s) (steady s t (suc n))
  unfolding scroll
  scroll-answer fuel user_id limit before s t n =
      on_error_runs (get_history unmarshal_log unmarshal_prep user_id limit before)
        (λ e. pure (err e)) (next_page (scroll fuel user_id limit)) _ _ _
        (get_history-answer user_id limit before s t n)

  next_page-more :
      (request : Option Time → Db ChatTables (Result DbError (List Message))) (w : World ChatTables)
      (oldest : Message) (others older_ones : List Message)
      → (request (some oldest.created_at) w).0 ≡ ok older_ones
      → (next_page request (oldest ∷ others, true) w).0 ≡ ok (older_ones ++ oldest ∷ others)
  unfolding next_page on_error pure
  next_page-more request w oldest others older_ones h = ground arith

  -- A page with more behind it, and what the next request meets.
  scroll-more :
      (fuel : ℕ) (user_id : Uuid) (limit : ℤ) (before : Option Time) (s : ChatTables) (t : Time)
      (n : Uuid) (p : Step sent_at (clamp_limit limit) (visible_before before user_id s))
      → (scroll fuel user_id limit (some p.oldest.created_at) (steady s t (suc n))).0
        ≡ ok (reverse (keep (older sent_at (sent_at p.oldest)) (visible_before before user_id s)))
      → (scroll (suc fuel) user_id limit before (steady s t n)).0
        ≡ ok (reverse (visible_before before user_id s))
  unfolding answer
  scroll-more fuel user_id limit before s t n p rest =
      let page = ap turned p.cut ∙ ap (λ l. (l, true)) p.ascending in
      ap (λ x. x.0) (scroll-answer fuel user_id limit before s t n)
      ∙ ap (λ c. (next_page (scroll fuel user_id limit) c (steady s t (suc n))).0) page
      ∙ next_page-more (scroll fuel user_id limit) (steady s t (suc n)) p.oldest p.others _ rest
      ∙ ap ok (
          ap
            (λ l.
              reverse (keep (older sent_at (sent_at p.oldest)) (visible_before before user_id s))
              ++ l)
            (sym p.ascending)
          ∙ sym (reverse-append p.page _)
          ∙ ap reverse (sym p.covers))

  scroll-last :
      (fuel : ℕ) (user_id : Uuid) (limit : ℤ) (before : Option Time) (s : ChatTables) (t : Time)
      (n : Uuid)
      → ltb (clamp_limit limit) (length (visible_before before user_id s)) ≡ false
      → (scroll (suc fuel) user_id limit before (steady s t n)).0
        ≡ ok (reverse (visible_before before user_id s))
  unfolding answer next_page pure cut_page
  scroll-last fuel user_id limit before s t n last =
      let page = cut_page-last (clamp_limit limit) (visible_before before user_id s) last in
      ap (λ x. x.0) (scroll-answer fuel user_id limit before s t n)
      ∙ ap (λ c. (next_page (scroll fuel user_id limit) (turned c) (steady s t (suc n))).0) page

  -- A cursor that is not after an earlier one.
  narrowed :
      (before : Option Time) (u : Time) (user_id : Uuid) (s : ChatTables)
      → ((t : Time) → All (λ m. sent_at m < t) (visible_before before user_id s) → u < t)
      → keep (older sent_at u) (visible_before before user_id s) ≡ visible_before (some u) user_id s
  narrowed none u user_id s h =
      keep-keep (older sent_at u) (λ m. true) (λ m e. refl) (visible user_id s)
  narrowed (some b) u user_id s h =
      let earlier = h b (
        All-keep sent_at (λ m. sent_at m < b) (older sent_at b) (λ m e. ltb→lt (sent_at m) b e)
          (visible user_id s)) in
      keep-keep (older sent_at u) (older sent_at b) (λ m e. ground arith) (visible user_id s)

  fewer :
      (q : Message → Bool) (before : Option Time) (user_id : Uuid) (limit : ℤ) (s : ChatTables)
      → count_where q (visible user_id s) ≤ clamp_limit limit
      → count_where q (visible_before before user_id s) ≤ clamp_limit limit
  fewer q before user_id limit s h =
      omega (arith, h, count_where-keep q (λ m. is_before before (sent_at m)) (visible user_id s))

  scroll-before :
      (fuel : ℕ) (user_id : Uuid) (limit : ℤ) (before : Option Time) (s : ChatTables) (t : Time)
      (n : Uuid)
      → length (visible_before before user_id s) < fuel
      → ((at : Time) → count_where (λ m. sent_at m == at) (visible user_id s) ≤ clamp_limit limit)
      → (scroll fuel user_id limit before (steady s t n)).0
        ≡ ok (reverse (visible_before before user_id s))
  scroll-before zero user_id limit before s t n enough few = ground arith
  scroll-before (suc fuel) user_id limit before s t n enough few =
      let ms = visible_before before user_id s in
      elim (Bool-cases (ltb (clamp_limit limit) (length ms))) [
        | inl more ↦
            let p =
              step sent_at (clamp_limit limit) ms
                (Descending-keep sent_at (λ m. is_before before (sent_at m)) (visible user_id s)
                  (visible-IsDescending user_id s))
                (ltb→lt (clamp_limit limit) (length ms) more)
                (λ at. fewer (λ m. sent_at m == at) before user_id limit s (few at)) in
            let same = narrowed before (sent_at p.oldest) user_id s p.inside in
            scroll-more fuel user_id limit before s t n p (
              scroll-before fuel user_id limit (some (sent_at p.oldest)) s t (suc n)
                (ends ms same p.shorter enough) few
              ∙ ap (λ l. ok (reverse l)) (sym same))
        | inr last ↦ scroll-last fuel user_id limit before s t n last
      ]

  -- Where no statement fails, and no instant has more of the user's visible messages than the limit: a client that
  -- scrolls back from the newest page gets every visible message exactly once, from the oldest to the newest,
  -- with no more requests than there are messages, and one more.
  pub scroll-visible :
      (fuel : ℕ) (user_id : Uuid) (limit : ℤ) (s : ChatTables) (t : Time) (n : Uuid)
      → length (visible user_id s) < fuel
      → ((at : Time) → count_where (λ m. sent_at m == at) (visible user_id s) ≤ clamp_limit limit)
      → (scroll fuel user_id limit none (steady s t n)).0 ≡ ok (reverse (visible user_id s))
  scroll-visible fuel user_id limit s t n enough few =
      let whole = keep-true (visible user_id s) in
      scroll-before fuel user_id limit none s t n (omega (arith, enough, ap length whole)) few
      ∙ ap (λ l. ok (reverse l)) whole

-- ===== src/History/Depth.antt =====
-- Add and GetCachedMessage of transport/message/history.h, seen as operations on lists.
use hongwei_notebook.Common.{
  ℕ, zero, suc, ◌+◌, ◌-◌, ◌≤◌, ◌≡◌, refl, ap, sym, ◌∙◌, true, false, List, [], ◌∷◌, ◌++◌, Option,
  arith, length, drop, length-append, append_assoc, append-nil, length-drop,
}
use hongwei_notebook.History.{
  History, HistoryAttributes, make, enable, pop_while, add, get_cached_message,
}

module _ {A : Type 0} where
  abbrev pub last_of : ℕ → List A → List A
  last_of n xs = drop (length xs - n) xs

  pub last_of_all : (n : ℕ) (xs : List A) → length xs ≤ n → last_of n xs ≡ xs
  last_of_all n xs h = let e : length xs - n ≡ 0 = omega arith in rw e

  last_of-cons : (n : ℕ) (x : A) (xs : List A) → n ≤ length xs → last_of n (x ∷ xs) ≡ last_of n xs
  last_of-cons n x xs h = let e : suc (length xs) - n ≡ suc (length xs - n) = omega arith in rw e

  -- The loop ends within as many rounds as there are messages.
  pub pop_while-last :
      (fuel depth : ℕ) (xs : List A)
      → length xs ≤ fuel + depth
      → pop_while fuel depth xs ≡ drop (length xs - depth) xs
  unfolding pop_while
  pop_while-last zero depth xs h = sym (last_of_all depth xs (omega arith))
  pop_while-last (suc fuel) depth [] h =
      let nil : List A = [] in ground (arith, last_of_all depth nil)
  pop_while-last (suc fuel) depth (x ∷ xs) h =
      ground
        (arith, last_of_all depth (x ∷ xs), last_of-cons depth x xs, pop_while-last fuel depth xs)

  drop-append : (k : ℕ) (xs ys : List A) → k ≤ length xs → drop k (xs ++ ys) ≡ drop k xs ++ ys
  drop-append zero xs ys h = refl
  drop-append (suc k) [] ys h = absurd (omega arith)
  drop-append (suc k) (x ∷ xs) ys h = drop-append k xs ys (omega arith)

  drop-drop : (j k : ℕ) (xs : List A) → drop j (drop k xs) ≡ drop (k + j) xs
  drop-drop j zero xs = ap (λ n. drop n xs) (omega arith)
  drop-drop zero (suc k) [] = let e : suc k + zero ≡ suc k = omega arith in rw e
  drop-drop (suc j) (suc k) [] = let e : suc k + suc j ≡ suc (k + suc j) = omega arith in rw e
  drop-drop j (suc k) (x ∷ xs) =
      let e : suc k + j ≡ suc (k + j) = omega arith in rw e (drop-drop j k xs)

  abbrev pub add_all : History A → List A → History A
  add_all h [] = h
  add_all h (m ∷ ms) = add_all (add h m) ms

  add-last :
      (h : History A) (m : A)
      → h.enabled ≡ true
      → add h m ≡ record h { msgs = last_of h.depth (h.msgs ++ m ∷ []) }
  unfolding add
  add-last h m e =
      ground (arith, pop_while-last (length (h.msgs ++ m ∷ [])) h.depth (h.msgs ++ m ∷ []))

  last_of-step :
      (n : ℕ) (past : List A) (m : A)
      → last_of n (last_of n past ++ m ∷ []) ≡ last_of n (past ++ m ∷ [])
  last_of-step n past m =
      let k = length past - n in
      rw (← drop-append k past (m ∷ []) (omega arith), drop-drop)
        (ap (λ i. drop i (past ++ m ∷ []))
          (omega (arith, length-drop k (past ++ m ∷ []), length-append past (m ∷ []))))

  -- An enabled history that has kept the last `depth` of the messages of `past` keeps, after more
  -- messages, the last `depth` of all of them.
  pub add_all-last :
      (ms : List A) (h : History A) (past : List A)
      → h.enabled ≡ true
      → h.msgs ≡ last_of h.depth past
      → (add_all h ms).msgs ≡ last_of h.depth (past ++ ms)
  add_all-last [] h past e k = rw append-nil k
  add_all-last (m ∷ ms) h past e k =
      let step : last_of h.depth (h.msgs ++ m ∷ []) ≡ last_of h.depth (past ++ m ∷ []) =
        rw k (last_of-step h.depth past m) in
      ap (λ r. (add_all r ms).msgs) (add-last h m e)
      ∙ (add_all-last ms (record h { msgs = last_of h.depth (h.msgs ++ m ∷ []) }) (past ++ m ∷ []) e
            step
          ∙ ap (last_of h.depth) (append_assoc past (m ∷ []) ms))

  -- A reader that joins late finds the last messages in front of its vector, as many as the depth
  -- of the attributes, the limit of the configuration and the messages sent allow.
  pub late_reader :
      (configured : Option ℕ) (attr : HistoryAttributes) (ms out : List A)
      → let h = enable (make configured attr) in
        (get_cached_message (add_all h ms) out ≡ drop (length ms - h.depth) ms ++ out)
        × (h.depth ≤ h.max_depth)
  unfolding enable make get_cached_message
  late_reader configured attr ms out = (
    ap (λ t. t ++ out)
        (add_all-last ms (enable (make configured attr)) [] refl
          (sym (last_of_all _ [] (omega arith)))),
    ground arith,
  )

  -- A disabled history keeps what it has.
  pub disabled-add : (h : History A) (ms : List A) → h.enabled ≡ false → add_all h ms ≡ h
  unfolding add
  disabled-add h [] e = refl
  disabled-add h (m ∷ ms) e = ap (λ r. add_all r ms) (ground arith) ∙ disabled-add h ms e

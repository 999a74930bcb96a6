-- ===== src/App/Paging.antt =====
-- `ListTranscodeTasks`: the pages that it cuts.
use go_video_transcode_servi.Common.{
  to_int64, map, Op, pure, ℕ, zero, suc, ◌+◌, ◌-◌, ◌*◌, ◌≤◌, ◌<◌, pos, ◌≡◌, refl, ap, sym, ◌∙◌,
  arith, Option, none, some, List, [], ◌∷◌, ◌++◌, length, take, drop, ltb, length-drop, length-take,
  inl, inr, Bool-cases,
}
use go_video_transcode_servi.Runtime.{Runtime}
use go_video_transcode_servi.Task.{Task}
use go_video_transcode_servi.App.{Services, page_from, page_of}
use go_video_transcode_servi.Dto.{TranscodeTaskDto, new_task_dto}

take-ge : {A : Type 0} (n : ℕ) (xs : List A) → length xs ≤ n → take n xs ≡ xs
take-ge zero [] h = refl
take-ge zero (x ∷ xs) h = absurd (omega arith)
take-ge (suc n) [] h = refl
take-ge (suc n) (x ∷ xs) h = ap (λ l. x ∷ l) (take-ge n xs (omega arith))

length-zero : {A : Type 0} (xs : List A) → length xs ≡ 0 → xs ≡ []
length-zero [] h = refl
length-zero (x ∷ xs) h = absurd (omega arith)

to_int64-small : (n : ℕ) → n < 0x8000000000000000 → to_int64 n ≡ pos n
to_int64-small n h = ground arith

take-empty : {A : Type 0} (n : ℕ) → take {A = A} n [] ≡ []
take-empty zero = refl
take-empty (suc n) = refl

take-append-take :
    {A : Type 0} (a b : ℕ) (xs : List A) → take a xs ++ take b (drop a xs) ≡ take (a + b) xs
take-append-take zero b xs = ap (λ n. take n xs) (omega arith)
take-append-take (suc a) b [] = take-empty b ∙ sym (take-empty (suc a + b))
take-append-take (suc a) b (x ∷ xs) =
    ap (λ l. x ∷ l) (take-append-take a b xs)
    ∙ ap (λ n. take n (x ∷ xs)) {x = suc (a + b)} (omega arith)

page_from-pos :
    {A : Type 0} (start size : ℕ) (all : List A)
    → page_from (pos start) size all ≡ some (take size (drop start all))
unfolding page_from
page_from-pos start size all = elim (Bool-cases (ltb (length all) start)) [
  | inl beyond ↦ rw beyond (
      ap some (
        sym (
          length-zero (take size (drop start all))
            (ground (arith, length-take size (drop start all), length-drop start all)))))
  | inr within ↦ rw within (elim (Bool-cases (ltb (length all) (start + size))) [
    | inl cut ↦ rw cut (
        ap some (
          take-ge (length all - start) (drop start all) (ground (arith, length-drop start all))
          ∙ sym (take-ge size (drop start all) (ground (arith, length-drop start all)))))
    | inr full ↦ rw full (ap (λ n. some (take n (drop start all))) (ground arith))
  ])
]

-- Where the offset of the page fits into an int, the call does not fault, and the page is the `size`
-- tasks behind the earlier pages, cut off at the end of the list.
page_of_lem :
    {A : Type 0} (page size : ℕ) (all : List A)
    → (page - 1) * size < 0x8000000000000000
    → page_of page size all ≡ some (take size (drop ((page - 1) * size) all))
unfolding page_of
page_of_lem page size all h =
    ap (λ start. page_from start size all) (to_int64-small ((page - 1) * size) h)
    ∙ page_from-pos ((page - 1) * size) size all

pred_suc : (k : ℕ) → suc k - 1 ≡ k
pred_suc k = omega arith

-- The pages in turn are the list from its start, as long as the offset fits into an int: what the
-- first `k` pages hold, followed by the next page, is what the first `k + 1` pages hold.
pages_joined :
    {A : Type 0} (k size : ℕ) (all : List A)
    → k * size < 0x8000000000000000
    → (p : List A) × (page_of (suc k) size all ≡ some p)
      × (take (k * size) all ++ p ≡ take (suc k * size) all)
pages_joined k size all h = (
  take size (drop (k * size) all),
  page_of_lem (suc k) size all (rw (pred_suc k) h)
      ∙ ap (λ m. some (take size (drop (m * size) all))) (pred_suc k),
  take-append-take (k * size) size all ∙ ap (λ n. take n all) (grind arith),
)

-- The answer to a listing, for a page, a size and the tasks that the page is cut from.
pub data Paged (page size : ℕ) (all : List Task) : Option (List TranscodeTaskDto × ℕ) → Type 0 where
  cut :
      (page - 1) * size < 0x8000000000000000
      → Paged page size all
          (some (map new_task_dto (take size (drop ((page - 1) * size) all)), length all))
  fault : 0x8000000000000000 ≤ (page - 1) * size → Paged page size all none

module _ {S : Type 0} (rt : Runtime) (env : Services S) where
  abbrev answer_with : List Task → Option (List Task) → Op S (Option (List TranscodeTaskDto × ℕ))
  answer_with all made = elim made [
    | none ↦ pure none
    | some slice ↦ pure (some (map new_task_dto slice, length all))
  ]

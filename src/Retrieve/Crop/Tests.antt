-- ===== src/Retrieve/Crop/Tests.antt =====
-- The crop at a concrete input.
use pro_rag.Prelude.{
  ℕ, ◌+◌, ◌≤◌, max, ◌≡◌, refl, sym, ap, ◌∙◌, ◌==◌, if◌then◌else◌, ◌⊎◌, inl, inr, Bool, true, false,
  Option, none, some, List, [], ◌∷◌, leb, length, count, Member, All, arith, Text,
}
use pro_rag.Prelude.Sort.{sort_desc}
use pro_rag.Prelude.Sub.{Sub}
use pro_rag.Prelude.Words.{codes}
use pro_rag.Retrieve.Hit.{Hit}
use pro_rag.Retrieve.Crop.{
  Limits, crop_context, dedup, dedup_from, crop_pool, title_of, take_slot, first_of_title,
  join_slot, against, kept_of, budgeted_from, pool_of, tokens_of,
}
use pro_rag.Retrieve.Crop.Bounds.{
  crop_context-Sub, crop_context-Fits, crop_context-tokens, total_tokens,
}
use pro_rag.Retrieve.Crop.Newest.{crop_one_printing, crop_newest}
use pro_rag.Retrieve.Crop.Printings.{one_doc, newer}
use pro_rag.Retrieve.Samples.{scores, hits, old_report, new_report, memo}

abbrev untitled : Option Text → Text
untitled t = codes "untitled"

abbrev limits : Limits ℕ
limits = record {
  min_docs = 1;
  max_docs = 2;
  max_chunks_per_doc = 2;
  score_floor = 100;
  token_budget = 250;
  min_chars = 4;
}

abbrev cropped : List (Hit scores)
cropped = crop_context scores untitled limits hits

cropped_newest : cropped ≡ new_report ∷ memo ∷ []
unfolding crop_context sort_desc dedup dedup_from crop_pool title_of pro_rag.Prelude.same_text
    take_slot first_of_title join_slot against kept_of budgeted_from pool_of tokens_of
cropped_newest = refl

in_cropped : Member new_report cropped
in_cropped = rw cropped_newest (inl refl)

crop_one_printing_example : new_report.doc_id ≡ new_report.doc_id
crop_one_printing_example =
    crop_one_printing scores untitled limits hits new_report new_report in_cropped in_cropped refl

crop_context-Sub_example : Sub cropped (sort_desc scores (λ h. h.score) hits)
crop_context-Sub_example = crop_context-Sub scores untitled limits hits

crop_context-Fits_example :
    (length cropped ≤ max limits.min_docs limits.max_docs)
    × ((length cropped ≤ limits.min_docs)
        ⊎ All (λ (h : Hit scores). leb limits.score_floor h.score ≡ true) cropped)
crop_context-Fits_example = crop_context-Fits scores untitled limits hits

crop_context-tokens_example :
    (length cropped ≤ limits.min_docs)
    ⊎ (total_tokens scores untitled limits cropped ≤ limits.token_budget)
crop_context-tokens_example = crop_context-tokens scores untitled limits hits

abbrev year_of : Option ℕ → Option ℕ
year_of none = none
year_of (some d) = some (if d == 10 then 2020 else if d == 11 then 2024 else 2021)

dated_by_doc : (a : Hit scores) → Member a hits → a.doc_date ≡ year_of a.doc_id
dated_by_doc a (inl e) = rw e refl
dated_by_doc a (inr (inl e)) = rw e refl
dated_by_doc a (inr (inr (inl e))) = rw e refl
dated_by_doc a (inr (inr (inr m))) = absurd m

dated :
    (a b : Hit scores)
    → Member a hits
    → Member b hits
    → one_doc scores untitled a b ≡ true
    → a.doc_date ≡ b.doc_date
dated a b ma mb same =
    let one : a.doc_id ≡ b.doc_id = ground arith in
    dated_by_doc a ma ∙ ap year_of one ∙ sym (dated_by_doc b mb)

crop_newest_example : newer scores untitled old_report new_report ≡ false
unfolding title_of
crop_newest_example =
    crop_newest scores untitled limits hits dated new_report old_report in_cropped (inr (inl refl))
      refl

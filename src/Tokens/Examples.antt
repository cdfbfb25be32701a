-- ===== src/Tokens/Examples.antt =====
-- Concrete runs of the token estimator and of the truncation.
use omni_sem.Base.{◌≤◌, ◌<◌, ◌≡◌, ◌⊎◌, refl, true, false, codes}
use omni_sem.Tokens.{
  byte_len, boundary_before, estimate, slice_to, mark_end, truncate_utf8, is_char_boundary,
  len_utf8, ends_with,
}
use omni_sem.Tokens.Truncation.{truncate_utf8_lem, IsCut}

-- the tests of tokens.rs
two_names_are_three_tokens : estimate (codes "a日b!") ≡ 2
unfolding estimate
two_names_are_three_tokens = refl

cut_at_boundary : truncate_utf8 (codes "é café") 4 ≡ (codes "é c…", true)
unfolding truncate_utf8 slice_to boundary_before ends_with mark_end byte_len is_char_boundary
    len_utf8
cut_at_boundary = refl

truncate_utf8_lem_example :
    ((byte_len (codes "é café") ≤ 4) × (truncate_utf8 (codes "é café") 4 ≡ (codes "é café", false)))
    ⊎ ((4 < byte_len (codes "é café"))
        × ((truncate_utf8 (codes "é café") 4).1 ≡ true)
        × IsCut (codes "é café") 4 (truncate_utf8 (codes "é café") 4).0)
truncate_utf8_lem_example = truncate_utf8_lem (codes "é café") 4

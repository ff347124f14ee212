-- ===== src/Account/CaseFold/From1041B.antt =====
-- The rows of FULL_DEFAULT_CASE_FOLD in rust/src/api/account_envelope/unicode17_casefold.rs from
-- U+1041B to U+10D59.
use openmls_dart.Prelude.{ℕ, List, [], ◌∷◌}

unfoldable pub folds_from_1041b : List (ℕ × List ℕ)
folds_from_1041b =
    (66587, 66627 ∷ [])
    ∷ (66588, 66628 ∷ [])
    ∷ (66589, 66629 ∷ [])
    ∷ (66590, 66630 ∷ [])
    ∷ (66591, 66631 ∷ [])
    ∷ (66592, 66632 ∷ [])
    ∷ (66593, 66633 ∷ [])
    ∷ (66594, 66634 ∷ [])
    ∷ (66595, 66635 ∷ [])
    ∷ (66596, 66636 ∷ [])
    ∷ (66597, 66637 ∷ [])
    ∷ (66598, 66638 ∷ [])
    ∷ (66599, 66639 ∷ [])
    ∷ (66736, 66776 ∷ [])
    ∷ (66737, 66777 ∷ [])
    ∷ (66738, 66778 ∷ [])
    ∷ (66739, 66779 ∷ [])
    ∷ (66740, 66780 ∷ [])
    ∷ (66741, 66781 ∷ [])
    ∷ (66742, 66782 ∷ [])
    ∷ (66743, 66783 ∷ [])
    ∷ (66744, 66784 ∷ [])
    ∷ (66745, 66785 ∷ [])
    ∷ (66746, 66786 ∷ [])
    ∷ (66747, 66787 ∷ [])
    ∷ (66748, 66788 ∷ [])
    ∷ (66749, 66789 ∷ [])
    ∷ (66750, 66790 ∷ [])
    ∷ (66751, 66791 ∷ [])
    ∷ (66752, 66792 ∷ [])
    ∷ (66753, 66793 ∷ [])
    ∷ (66754, 66794 ∷ [])
    ∷ (66755, 66795 ∷ [])
    ∷ (66756, 66796 ∷ [])
    ∷ (66757, 66797 ∷ [])
    ∷ (66758, 66798 ∷ [])
    ∷ (66759, 66799 ∷ [])
    ∷ (66760, 66800 ∷ [])
    ∷ (66761, 66801 ∷ [])
    ∷ (66762, 66802 ∷ [])
    ∷ (66763, 66803 ∷ [])
    ∷ (66764, 66804 ∷ [])
    ∷ (66765, 66805 ∷ [])
    ∷ (66766, 66806 ∷ [])
    ∷ (66767, 66807 ∷ [])
    ∷ (66768, 66808 ∷ [])
    ∷ (66769, 66809 ∷ [])
    ∷ (66770, 66810 ∷ [])
    ∷ (66771, 66811 ∷ [])
    ∷ (66928, 66967 ∷ [])
    ∷ (66929, 66968 ∷ [])
    ∷ (66930, 66969 ∷ [])
    ∷ (66931, 66970 ∷ [])
    ∷ (66932, 66971 ∷ [])
    ∷ (66933, 66972 ∷ [])
    ∷ (66934, 66973 ∷ [])
    ∷ (66935, 66974 ∷ [])
    ∷ (66936, 66975 ∷ [])
    ∷ (66937, 66976 ∷ [])
    ∷ (66938, 66977 ∷ [])
    ∷ (66940, 66979 ∷ [])
    ∷ (66941, 66980 ∷ [])
    ∷ (66942, 66981 ∷ [])
    ∷ (66943, 66982 ∷ [])
    ∷ (66944, 66983 ∷ [])
    ∷ (66945, 66984 ∷ [])
    ∷ (66946, 66985 ∷ [])
    ∷ (66947, 66986 ∷ [])
    ∷ (66948, 66987 ∷ [])
    ∷ (66949, 66988 ∷ [])
    ∷ (66950, 66989 ∷ [])
    ∷ (66951, 66990 ∷ [])
    ∷ (66952, 66991 ∷ [])
    ∷ (66953, 66992 ∷ [])
    ∷ (66954, 66993 ∷ [])
    ∷ (66956, 66995 ∷ [])
    ∷ (66957, 66996 ∷ [])
    ∷ (66958, 66997 ∷ [])
    ∷ (66959, 66998 ∷ [])
    ∷ (66960, 66999 ∷ [])
    ∷ (66961, 67000 ∷ [])
    ∷ (66962, 67001 ∷ [])
    ∷ (66964, 67003 ∷ [])
    ∷ (66965, 67004 ∷ [])
    ∷ (68736, 68800 ∷ [])
    ∷ (68737, 68801 ∷ [])
    ∷ (68738, 68802 ∷ [])
    ∷ (68739, 68803 ∷ [])
    ∷ (68740, 68804 ∷ [])
    ∷ (68741, 68805 ∷ [])
    ∷ (68742, 68806 ∷ [])
    ∷ (68743, 68807 ∷ [])
    ∷ (68744, 68808 ∷ [])
    ∷ (68745, 68809 ∷ [])
    ∷ (68746, 68810 ∷ [])
    ∷ (68747, 68811 ∷ [])
    ∷ (68748, 68812 ∷ [])
    ∷ (68749, 68813 ∷ [])
    ∷ (68750, 68814 ∷ [])
    ∷ (68751, 68815 ∷ [])
    ∷ (68752, 68816 ∷ [])
    ∷ (68753, 68817 ∷ [])
    ∷ (68754, 68818 ∷ [])
    ∷ (68755, 68819 ∷ [])
    ∷ (68756, 68820 ∷ [])
    ∷ (68757, 68821 ∷ [])
    ∷ (68758, 68822 ∷ [])
    ∷ (68759, 68823 ∷ [])
    ∷ (68760, 68824 ∷ [])
    ∷ (68761, 68825 ∷ [])
    ∷ (68762, 68826 ∷ [])
    ∷ (68763, 68827 ∷ [])
    ∷ (68764, 68828 ∷ [])
    ∷ (68765, 68829 ∷ [])
    ∷ (68766, 68830 ∷ [])
    ∷ (68767, 68831 ∷ [])
    ∷ (68768, 68832 ∷ [])
    ∷ (68769, 68833 ∷ [])
    ∷ (68770, 68834 ∷ [])
    ∷ (68771, 68835 ∷ [])
    ∷ (68772, 68836 ∷ [])
    ∷ (68773, 68837 ∷ [])
    ∷ (68774, 68838 ∷ [])
    ∷ (68775, 68839 ∷ [])
    ∷ (68776, 68840 ∷ [])
    ∷ (68777, 68841 ∷ [])
    ∷ (68778, 68842 ∷ [])
    ∷ (68779, 68843 ∷ [])
    ∷ (68780, 68844 ∷ [])
    ∷ (68781, 68845 ∷ [])
    ∷ (68782, 68846 ∷ [])
    ∷ (68783, 68847 ∷ [])
    ∷ (68784, 68848 ∷ [])
    ∷ (68785, 68849 ∷ [])
    ∷ (68786, 68850 ∷ [])
    ∷ (68944, 68976 ∷ [])
    ∷ (68945, 68977 ∷ [])
    ∷ (68946, 68978 ∷ [])
    ∷ (68947, 68979 ∷ [])
    ∷ (68948, 68980 ∷ [])
    ∷ (68949, 68981 ∷ [])
    ∷ (68950, 68982 ∷ [])
    ∷ (68951, 68983 ∷ [])
    ∷ (68952, 68984 ∷ [])
    ∷ (68953, 68985 ∷ [])
    ∷ []

-- ===== src/Account/CaseFold/From10D5A.antt =====
-- The rows of FULL_DEFAULT_CASE_FOLD in rust/src/api/account_envelope/unicode17_casefold.rs from
-- U+10D5A to U+1E921.
use openmls_dart.Prelude.{ℕ, List, [], ◌∷◌}

unfoldable pub folds_from_10d5a : List (ℕ × List ℕ)
folds_from_10d5a =
    (68954, 68986 ∷ [])
    ∷ (68955, 68987 ∷ [])
    ∷ (68956, 68988 ∷ [])
    ∷ (68957, 68989 ∷ [])
    ∷ (68958, 68990 ∷ [])
    ∷ (68959, 68991 ∷ [])
    ∷ (68960, 68992 ∷ [])
    ∷ (68961, 68993 ∷ [])
    ∷ (68962, 68994 ∷ [])
    ∷ (68963, 68995 ∷ [])
    ∷ (68964, 68996 ∷ [])
    ∷ (68965, 68997 ∷ [])
    ∷ (71840, 71872 ∷ [])
    ∷ (71841, 71873 ∷ [])
    ∷ (71842, 71874 ∷ [])
    ∷ (71843, 71875 ∷ [])
    ∷ (71844, 71876 ∷ [])
    ∷ (71845, 71877 ∷ [])
    ∷ (71846, 71878 ∷ [])
    ∷ (71847, 71879 ∷ [])
    ∷ (71848, 71880 ∷ [])
    ∷ (71849, 71881 ∷ [])
    ∷ (71850, 71882 ∷ [])
    ∷ (71851, 71883 ∷ [])
    ∷ (71852, 71884 ∷ [])
    ∷ (71853, 71885 ∷ [])
    ∷ (71854, 71886 ∷ [])
    ∷ (71855, 71887 ∷ [])
    ∷ (71856, 71888 ∷ [])
    ∷ (71857, 71889 ∷ [])
    ∷ (71858, 71890 ∷ [])
    ∷ (71859, 71891 ∷ [])
    ∷ (71860, 71892 ∷ [])
    ∷ (71861, 71893 ∷ [])
    ∷ (71862, 71894 ∷ [])
    ∷ (71863, 71895 ∷ [])
    ∷ (71864, 71896 ∷ [])
    ∷ (71865, 71897 ∷ [])
    ∷ (71866, 71898 ∷ [])
    ∷ (71867, 71899 ∷ [])
    ∷ (71868, 71900 ∷ [])
    ∷ (71869, 71901 ∷ [])
    ∷ (71870, 71902 ∷ [])
    ∷ (71871, 71903 ∷ [])
    ∷ (93760, 93792 ∷ [])
    ∷ (93761, 93793 ∷ [])
    ∷ (93762, 93794 ∷ [])
    ∷ (93763, 93795 ∷ [])
    ∷ (93764, 93796 ∷ [])
    ∷ (93765, 93797 ∷ [])
    ∷ (93766, 93798 ∷ [])
    ∷ (93767, 93799 ∷ [])
    ∷ (93768, 93800 ∷ [])
    ∷ (93769, 93801 ∷ [])
    ∷ (93770, 93802 ∷ [])
    ∷ (93771, 93803 ∷ [])
    ∷ (93772, 93804 ∷ [])
    ∷ (93773, 93805 ∷ [])
    ∷ (93774, 93806 ∷ [])
    ∷ (93775, 93807 ∷ [])
    ∷ (93776, 93808 ∷ [])
    ∷ (93777, 93809 ∷ [])
    ∷ (93778, 93810 ∷ [])
    ∷ (93779, 93811 ∷ [])
    ∷ (93780, 93812 ∷ [])
    ∷ (93781, 93813 ∷ [])
    ∷ (93782, 93814 ∷ [])
    ∷ (93783, 93815 ∷ [])
    ∷ (93784, 93816 ∷ [])
    ∷ (93785, 93817 ∷ [])
    ∷ (93786, 93818 ∷ [])
    ∷ (93787, 93819 ∷ [])
    ∷ (93788, 93820 ∷ [])
    ∷ (93789, 93821 ∷ [])
    ∷ (93790, 93822 ∷ [])
    ∷ (93791, 93823 ∷ [])
    ∷ (93856, 93883 ∷ [])
    ∷ (93857, 93884 ∷ [])
    ∷ (93858, 93885 ∷ [])
    ∷ (93859, 93886 ∷ [])
    ∷ (93860, 93887 ∷ [])
    ∷ (93861, 93888 ∷ [])
    ∷ (93862, 93889 ∷ [])
    ∷ (93863, 93890 ∷ [])
    ∷ (93864, 93891 ∷ [])
    ∷ (93865, 93892 ∷ [])
    ∷ (93866, 93893 ∷ [])
    ∷ (93867, 93894 ∷ [])
    ∷ (93868, 93895 ∷ [])
    ∷ (93869, 93896 ∷ [])
    ∷ (93870, 93897 ∷ [])
    ∷ (93871, 93898 ∷ [])
    ∷ (93872, 93899 ∷ [])
    ∷ (93873, 93900 ∷ [])
    ∷ (93874, 93901 ∷ [])
    ∷ (93875, 93902 ∷ [])
    ∷ (93876, 93903 ∷ [])
    ∷ (93877, 93904 ∷ [])
    ∷ (93878, 93905 ∷ [])
    ∷ (93879, 93906 ∷ [])
    ∷ (93880, 93907 ∷ [])
    ∷ (125184, 125218 ∷ [])
    ∷ (125185, 125219 ∷ [])
    ∷ (125186, 125220 ∷ [])
    ∷ (125187, 125221 ∷ [])
    ∷ (125188, 125222 ∷ [])
    ∷ (125189, 125223 ∷ [])
    ∷ (125190, 125224 ∷ [])
    ∷ (125191, 125225 ∷ [])
    ∷ (125192, 125226 ∷ [])
    ∷ (125193, 125227 ∷ [])
    ∷ (125194, 125228 ∷ [])
    ∷ (125195, 125229 ∷ [])
    ∷ (125196, 125230 ∷ [])
    ∷ (125197, 125231 ∷ [])
    ∷ (125198, 125232 ∷ [])
    ∷ (125199, 125233 ∷ [])
    ∷ (125200, 125234 ∷ [])
    ∷ (125201, 125235 ∷ [])
    ∷ (125202, 125236 ∷ [])
    ∷ (125203, 125237 ∷ [])
    ∷ (125204, 125238 ∷ [])
    ∷ (125205, 125239 ∷ [])
    ∷ (125206, 125240 ∷ [])
    ∷ (125207, 125241 ∷ [])
    ∷ (125208, 125242 ∷ [])
    ∷ (125209, 125243 ∷ [])
    ∷ (125210, 125244 ∷ [])
    ∷ (125211, 125245 ∷ [])
    ∷ (125212, 125246 ∷ [])
    ∷ (125213, 125247 ∷ [])
    ∷ (125214, 125248 ∷ [])
    ∷ (125215, 125249 ∷ [])
    ∷ (125216, 125250 ∷ [])
    ∷ (125217, 125251 ∷ [])
    ∷ []

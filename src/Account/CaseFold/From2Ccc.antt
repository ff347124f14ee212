-- ===== src/Account/CaseFold/From2Ccc.antt =====
-- The rows of FULL_DEFAULT_CASE_FOLD in rust/src/api/account_envelope/unicode17_casefold.rs from
-- U+2CCC to U+A7F5.
use openmls_dart.Prelude.{ℕ, List, [], ◌∷◌}

unfoldable pub folds_from_2ccc : List (ℕ × List ℕ)
folds_from_2ccc =
    (11468, 11469 ∷ [])
    ∷ (11470, 11471 ∷ [])
    ∷ (11472, 11473 ∷ [])
    ∷ (11474, 11475 ∷ [])
    ∷ (11476, 11477 ∷ [])
    ∷ (11478, 11479 ∷ [])
    ∷ (11480, 11481 ∷ [])
    ∷ (11482, 11483 ∷ [])
    ∷ (11484, 11485 ∷ [])
    ∷ (11486, 11487 ∷ [])
    ∷ (11488, 11489 ∷ [])
    ∷ (11490, 11491 ∷ [])
    ∷ (11499, 11500 ∷ [])
    ∷ (11501, 11502 ∷ [])
    ∷ (11506, 11507 ∷ [])
    ∷ (42560, 42561 ∷ [])
    ∷ (42562, 42563 ∷ [])
    ∷ (42564, 42565 ∷ [])
    ∷ (42566, 42567 ∷ [])
    ∷ (42568, 42569 ∷ [])
    ∷ (42570, 42571 ∷ [])
    ∷ (42572, 42573 ∷ [])
    ∷ (42574, 42575 ∷ [])
    ∷ (42576, 42577 ∷ [])
    ∷ (42578, 42579 ∷ [])
    ∷ (42580, 42581 ∷ [])
    ∷ (42582, 42583 ∷ [])
    ∷ (42584, 42585 ∷ [])
    ∷ (42586, 42587 ∷ [])
    ∷ (42588, 42589 ∷ [])
    ∷ (42590, 42591 ∷ [])
    ∷ (42592, 42593 ∷ [])
    ∷ (42594, 42595 ∷ [])
    ∷ (42596, 42597 ∷ [])
    ∷ (42598, 42599 ∷ [])
    ∷ (42600, 42601 ∷ [])
    ∷ (42602, 42603 ∷ [])
    ∷ (42604, 42605 ∷ [])
    ∷ (42624, 42625 ∷ [])
    ∷ (42626, 42627 ∷ [])
    ∷ (42628, 42629 ∷ [])
    ∷ (42630, 42631 ∷ [])
    ∷ (42632, 42633 ∷ [])
    ∷ (42634, 42635 ∷ [])
    ∷ (42636, 42637 ∷ [])
    ∷ (42638, 42639 ∷ [])
    ∷ (42640, 42641 ∷ [])
    ∷ (42642, 42643 ∷ [])
    ∷ (42644, 42645 ∷ [])
    ∷ (42646, 42647 ∷ [])
    ∷ (42648, 42649 ∷ [])
    ∷ (42650, 42651 ∷ [])
    ∷ (42786, 42787 ∷ [])
    ∷ (42788, 42789 ∷ [])
    ∷ (42790, 42791 ∷ [])
    ∷ (42792, 42793 ∷ [])
    ∷ (42794, 42795 ∷ [])
    ∷ (42796, 42797 ∷ [])
    ∷ (42798, 42799 ∷ [])
    ∷ (42802, 42803 ∷ [])
    ∷ (42804, 42805 ∷ [])
    ∷ (42806, 42807 ∷ [])
    ∷ (42808, 42809 ∷ [])
    ∷ (42810, 42811 ∷ [])
    ∷ (42812, 42813 ∷ [])
    ∷ (42814, 42815 ∷ [])
    ∷ (42816, 42817 ∷ [])
    ∷ (42818, 42819 ∷ [])
    ∷ (42820, 42821 ∷ [])
    ∷ (42822, 42823 ∷ [])
    ∷ (42824, 42825 ∷ [])
    ∷ (42826, 42827 ∷ [])
    ∷ (42828, 42829 ∷ [])
    ∷ (42830, 42831 ∷ [])
    ∷ (42832, 42833 ∷ [])
    ∷ (42834, 42835 ∷ [])
    ∷ (42836, 42837 ∷ [])
    ∷ (42838, 42839 ∷ [])
    ∷ (42840, 42841 ∷ [])
    ∷ (42842, 42843 ∷ [])
    ∷ (42844, 42845 ∷ [])
    ∷ (42846, 42847 ∷ [])
    ∷ (42848, 42849 ∷ [])
    ∷ (42850, 42851 ∷ [])
    ∷ (42852, 42853 ∷ [])
    ∷ (42854, 42855 ∷ [])
    ∷ (42856, 42857 ∷ [])
    ∷ (42858, 42859 ∷ [])
    ∷ (42860, 42861 ∷ [])
    ∷ (42862, 42863 ∷ [])
    ∷ (42873, 42874 ∷ [])
    ∷ (42875, 42876 ∷ [])
    ∷ (42877, 7545 ∷ [])
    ∷ (42878, 42879 ∷ [])
    ∷ (42880, 42881 ∷ [])
    ∷ (42882, 42883 ∷ [])
    ∷ (42884, 42885 ∷ [])
    ∷ (42886, 42887 ∷ [])
    ∷ (42891, 42892 ∷ [])
    ∷ (42893, 613 ∷ [])
    ∷ (42896, 42897 ∷ [])
    ∷ (42898, 42899 ∷ [])
    ∷ (42902, 42903 ∷ [])
    ∷ (42904, 42905 ∷ [])
    ∷ (42906, 42907 ∷ [])
    ∷ (42908, 42909 ∷ [])
    ∷ (42910, 42911 ∷ [])
    ∷ (42912, 42913 ∷ [])
    ∷ (42914, 42915 ∷ [])
    ∷ (42916, 42917 ∷ [])
    ∷ (42918, 42919 ∷ [])
    ∷ (42920, 42921 ∷ [])
    ∷ (42922, 614 ∷ [])
    ∷ (42923, 604 ∷ [])
    ∷ (42924, 609 ∷ [])
    ∷ (42925, 620 ∷ [])
    ∷ (42926, 618 ∷ [])
    ∷ (42928, 670 ∷ [])
    ∷ (42929, 647 ∷ [])
    ∷ (42930, 669 ∷ [])
    ∷ (42931, 43859 ∷ [])
    ∷ (42932, 42933 ∷ [])
    ∷ (42934, 42935 ∷ [])
    ∷ (42936, 42937 ∷ [])
    ∷ (42938, 42939 ∷ [])
    ∷ (42940, 42941 ∷ [])
    ∷ (42942, 42943 ∷ [])
    ∷ (42944, 42945 ∷ [])
    ∷ (42946, 42947 ∷ [])
    ∷ (42948, 42900 ∷ [])
    ∷ (42949, 642 ∷ [])
    ∷ (42950, 7566 ∷ [])
    ∷ (42951, 42952 ∷ [])
    ∷ (42953, 42954 ∷ [])
    ∷ (42955, 612 ∷ [])
    ∷ (42956, 42957 ∷ [])
    ∷ (42958, 42959 ∷ [])
    ∷ (42960, 42961 ∷ [])
    ∷ (42962, 42963 ∷ [])
    ∷ (42964, 42965 ∷ [])
    ∷ (42966, 42967 ∷ [])
    ∷ (42968, 42969 ∷ [])
    ∷ (42970, 42971 ∷ [])
    ∷ (42972, 411 ∷ [])
    ∷ (42997, 42998 ∷ [])
    ∷ []

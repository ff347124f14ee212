-- ===== src/Account/CaseFold/From1Cb6.antt =====
-- The rows of FULL_DEFAULT_CASE_FOLD in rust/src/api/account_envelope/unicode17_casefold.rs from
-- U+1CB6 to U+1F0E.
use openmls_dart.Prelude.{ℕ, List, [], ◌∷◌}

unfoldable pub folds_from_1cb6 : List (ℕ × List ℕ)
folds_from_1cb6 =
    (7350, 4342 ∷ [])
    ∷ (7351, 4343 ∷ [])
    ∷ (7352, 4344 ∷ [])
    ∷ (7353, 4345 ∷ [])
    ∷ (7354, 4346 ∷ [])
    ∷ (7357, 4349 ∷ [])
    ∷ (7358, 4350 ∷ [])
    ∷ (7359, 4351 ∷ [])
    ∷ (7680, 7681 ∷ [])
    ∷ (7682, 7683 ∷ [])
    ∷ (7684, 7685 ∷ [])
    ∷ (7686, 7687 ∷ [])
    ∷ (7688, 7689 ∷ [])
    ∷ (7690, 7691 ∷ [])
    ∷ (7692, 7693 ∷ [])
    ∷ (7694, 7695 ∷ [])
    ∷ (7696, 7697 ∷ [])
    ∷ (7698, 7699 ∷ [])
    ∷ (7700, 7701 ∷ [])
    ∷ (7702, 7703 ∷ [])
    ∷ (7704, 7705 ∷ [])
    ∷ (7706, 7707 ∷ [])
    ∷ (7708, 7709 ∷ [])
    ∷ (7710, 7711 ∷ [])
    ∷ (7712, 7713 ∷ [])
    ∷ (7714, 7715 ∷ [])
    ∷ (7716, 7717 ∷ [])
    ∷ (7718, 7719 ∷ [])
    ∷ (7720, 7721 ∷ [])
    ∷ (7722, 7723 ∷ [])
    ∷ (7724, 7725 ∷ [])
    ∷ (7726, 7727 ∷ [])
    ∷ (7728, 7729 ∷ [])
    ∷ (7730, 7731 ∷ [])
    ∷ (7732, 7733 ∷ [])
    ∷ (7734, 7735 ∷ [])
    ∷ (7736, 7737 ∷ [])
    ∷ (7738, 7739 ∷ [])
    ∷ (7740, 7741 ∷ [])
    ∷ (7742, 7743 ∷ [])
    ∷ (7744, 7745 ∷ [])
    ∷ (7746, 7747 ∷ [])
    ∷ (7748, 7749 ∷ [])
    ∷ (7750, 7751 ∷ [])
    ∷ (7752, 7753 ∷ [])
    ∷ (7754, 7755 ∷ [])
    ∷ (7756, 7757 ∷ [])
    ∷ (7758, 7759 ∷ [])
    ∷ (7760, 7761 ∷ [])
    ∷ (7762, 7763 ∷ [])
    ∷ (7764, 7765 ∷ [])
    ∷ (7766, 7767 ∷ [])
    ∷ (7768, 7769 ∷ [])
    ∷ (7770, 7771 ∷ [])
    ∷ (7772, 7773 ∷ [])
    ∷ (7774, 7775 ∷ [])
    ∷ (7776, 7777 ∷ [])
    ∷ (7778, 7779 ∷ [])
    ∷ (7780, 7781 ∷ [])
    ∷ (7782, 7783 ∷ [])
    ∷ (7784, 7785 ∷ [])
    ∷ (7786, 7787 ∷ [])
    ∷ (7788, 7789 ∷ [])
    ∷ (7790, 7791 ∷ [])
    ∷ (7792, 7793 ∷ [])
    ∷ (7794, 7795 ∷ [])
    ∷ (7796, 7797 ∷ [])
    ∷ (7798, 7799 ∷ [])
    ∷ (7800, 7801 ∷ [])
    ∷ (7802, 7803 ∷ [])
    ∷ (7804, 7805 ∷ [])
    ∷ (7806, 7807 ∷ [])
    ∷ (7808, 7809 ∷ [])
    ∷ (7810, 7811 ∷ [])
    ∷ (7812, 7813 ∷ [])
    ∷ (7814, 7815 ∷ [])
    ∷ (7816, 7817 ∷ [])
    ∷ (7818, 7819 ∷ [])
    ∷ (7820, 7821 ∷ [])
    ∷ (7822, 7823 ∷ [])
    ∷ (7824, 7825 ∷ [])
    ∷ (7826, 7827 ∷ [])
    ∷ (7828, 7829 ∷ [])
    ∷ (7830, 104 ∷ 817 ∷ [])
    ∷ (7831, 116 ∷ 776 ∷ [])
    ∷ (7832, 119 ∷ 778 ∷ [])
    ∷ (7833, 121 ∷ 778 ∷ [])
    ∷ (7834, 97 ∷ 702 ∷ [])
    ∷ (7835, 7777 ∷ [])
    ∷ (7838, 115 ∷ 115 ∷ [])
    ∷ (7840, 7841 ∷ [])
    ∷ (7842, 7843 ∷ [])
    ∷ (7844, 7845 ∷ [])
    ∷ (7846, 7847 ∷ [])
    ∷ (7848, 7849 ∷ [])
    ∷ (7850, 7851 ∷ [])
    ∷ (7852, 7853 ∷ [])
    ∷ (7854, 7855 ∷ [])
    ∷ (7856, 7857 ∷ [])
    ∷ (7858, 7859 ∷ [])
    ∷ (7860, 7861 ∷ [])
    ∷ (7862, 7863 ∷ [])
    ∷ (7864, 7865 ∷ [])
    ∷ (7866, 7867 ∷ [])
    ∷ (7868, 7869 ∷ [])
    ∷ (7870, 7871 ∷ [])
    ∷ (7872, 7873 ∷ [])
    ∷ (7874, 7875 ∷ [])
    ∷ (7876, 7877 ∷ [])
    ∷ (7878, 7879 ∷ [])
    ∷ (7880, 7881 ∷ [])
    ∷ (7882, 7883 ∷ [])
    ∷ (7884, 7885 ∷ [])
    ∷ (7886, 7887 ∷ [])
    ∷ (7888, 7889 ∷ [])
    ∷ (7890, 7891 ∷ [])
    ∷ (7892, 7893 ∷ [])
    ∷ (7894, 7895 ∷ [])
    ∷ (7896, 7897 ∷ [])
    ∷ (7898, 7899 ∷ [])
    ∷ (7900, 7901 ∷ [])
    ∷ (7902, 7903 ∷ [])
    ∷ (7904, 7905 ∷ [])
    ∷ (7906, 7907 ∷ [])
    ∷ (7908, 7909 ∷ [])
    ∷ (7910, 7911 ∷ [])
    ∷ (7912, 7913 ∷ [])
    ∷ (7914, 7915 ∷ [])
    ∷ (7916, 7917 ∷ [])
    ∷ (7918, 7919 ∷ [])
    ∷ (7920, 7921 ∷ [])
    ∷ (7922, 7923 ∷ [])
    ∷ (7924, 7925 ∷ [])
    ∷ (7926, 7927 ∷ [])
    ∷ (7928, 7929 ∷ [])
    ∷ (7930, 7931 ∷ [])
    ∷ (7932, 7933 ∷ [])
    ∷ (7934, 7935 ∷ [])
    ∷ (7944, 7936 ∷ [])
    ∷ (7945, 7937 ∷ [])
    ∷ (7946, 7938 ∷ [])
    ∷ (7947, 7939 ∷ [])
    ∷ (7948, 7940 ∷ [])
    ∷ (7949, 7941 ∷ [])
    ∷ (7950, 7942 ∷ [])
    ∷ []

-- ===== src/Webserver/Texts.antt =====
-- The text of a chart of ictp/webserver/websense.c.
use ts_it.Base.{
  ℕ, ◌+◌, ◌++◌, List, [], ◌∷◌, codes, IsText, All-append, IsText-decimal_digits, arith,
}
use ts_it.Webserver.{ℤ, pos, negsuc, int_text, chart_head}

-- Numbers with commas between them.
abbrev pub behind : List ℤ → List ℕ
behind [] = []
behind (v ∷ vs) = codes "," ++ (int_text v ++ behind vs)

abbrev pub numbers : List ℤ → List ℕ
numbers [] = []
numbers (v ∷ vs) = int_text v ++ behind vs

IsText-int_text : (v : ℤ) → IsText (int_text v)
IsText-int_text (pos n) = IsText-decimal_digits 5 n [] tt
IsText-int_text (negsuc n) = (omega arith, IsText-decimal_digits 5 (n + 1) [] tt)

IsText-behind : (vs : List ℤ) → IsText (behind vs)
IsText-behind [] = tt
IsText-behind (v ∷ vs) =
    (omega arith, All-append _ (int_text v) (behind vs) (IsText-int_text v) (IsText-behind vs))

pub IsText-numbers : (vs : List ℤ) → IsText (numbers vs)
IsText-numbers [] = tt
IsText-numbers (v ∷ vs) =
    All-append _ (int_text v) (behind vs) (IsText-int_text v) (IsText-behind vs)

pub IsText-chart_head :
    (title unit : List ℕ) (min max : ℤ)
    → IsText title
    → IsText unit
    → IsText (chart_head title unit min max)
IsText-chart_head title unit min max t u =
    let a = IsText-int_text min in
    let b = IsText-int_text max in
    All-append _ (codes "<h1>") _ (omega arith) (
      All-append _ title _ t (
        All-append _
          (codes
            "</h1>\n<img src=\"http://chart.apis.google.com/chart?cht=lc&chs=400x300&chxt=x,x,y,y&chxp=1,50|3,50&chxr=2,")
          _ (omega arith)
          (All-append _ (int_text min) _ a (
            omega arith,
            (All-append _ (int_text max) _ b (
                All-append _ (codes "|0,0,30&chds=") _ (omega arith) (
                  All-append _ (int_text min) _ a (
                    omega arith,
                    (All-append _ (int_text max) _ b (
                        All-append _ (codes "&chxl=1:|Time|3:|") _ (omega arith)
                          (All-append _ unit (codes "&chd=t:") u (omega arith)))),
                  )))),
          ))))

-- ===== src/Report/Html/Layout.antt =====
-- The fixed texts of the page of internal/report/html.go.
use pgcov.Base.{List, [], ◌∷◌, ◌++◌, Bytes, codes}

-- Lines of a raw string of the source, each with its line break.
unfoldable pub as_lines : List Bytes → Bytes
as_lines [] = []
as_lines (l ∷ ls) = l ++ (b'\n' ∷ as_lines ls)

-- The page up to the list of files.
unfoldable pub page_top : Bytes
unfolding as_lines
page_top = as_lines (
    codes "<!DOCTYPE html>"
    ∷ codes "<html>"
    ∷ codes "\t<head>"
    ∷ codes "\t\t<meta http-equiv=\"Content-Type\" content=\"text/html; charset=utf-8\">"
    ∷ codes "\t\t<title>pgcov: Coverage Report</title>"
    ∷ codes "\t\t<style>"
    ∷ codes "\t\t\tbody {"
    ∷ codes "\t\t\t\tbackground: black;"
    ∷ codes "\t\t\t\tcolor: rgb(80, 80, 80);"
    ∷ codes "\t\t\t}"
    ∷ codes "\t\t\tbody, pre, #legend span {"
    ∷ codes "\t\t\t\tfont-family: Menlo, monospace;"
    ∷ codes "\t\t\t\tfont-weight: bold;"
    ∷ codes "\t\t\t}"
    ∷ codes "\t\t\t#topbar {"
    ∷ codes "\t\t\t\tbackground: black;"
    ∷ codes "\t\t\t\tposition: fixed;"
    ∷ codes "\t\t\t\ttop: 0; left: 0; right: 0;"
    ∷ codes "\t\t\t\theight: 42px;"
    ∷ codes "\t\t\t\tborder-bottom: 1px solid rgb(80, 80, 80);"
    ∷ codes "\t\t\t}"
    ∷ codes "\t\t\t#content {"
    ∷ codes "\t\t\t\tmargin-top: 50px;"
    ∷ codes "\t\t\t}"
    ∷ codes "\t\t\t#nav, #legend {"
    ∷ codes "\t\t\t\tfloat: left;"
    ∷ codes "\t\t\t\tmargin-left: 10px;"
    ∷ codes "\t\t\t}"
    ∷ codes "\t\t\t#legend {"
    ∷ codes "\t\t\t\tmargin-top: 12px;"
    ∷ codes "\t\t\t}"
    ∷ codes "\t\t\t#nav {"
    ∷ codes "\t\t\t\tmargin-top: 10px;"
    ∷ codes "\t\t\t}"
    ∷ codes "\t\t\t#legend span {"
    ∷ codes "\t\t\t\tmargin: 0 5px;"
    ∷ codes "\t\t\t}"
    ∷ codes "\t\t\t.cov0 { color: rgb(192, 0, 0) }"
    ∷ codes "\t\t\t.cov1 { color: rgb(128, 128, 128) }"
    ∷ codes "\t\t\t.cov2 { color: rgb(116, 140, 131) }"
    ∷ codes "\t\t\t.cov3 { color: rgb(104, 152, 134) }"
    ∷ codes "\t\t\t.cov4 { color: rgb(92, 164, 137) }"
    ∷ codes "\t\t\t.cov5 { color: rgb(80, 176, 140) }"
    ∷ codes "\t\t\t.cov6 { color: rgb(68, 188, 143) }"
    ∷ codes "\t\t\t.cov7 { color: rgb(56, 200, 146) }"
    ∷ codes "\t\t\t.cov8 { color: rgb(44, 212, 149) }"
    ∷ codes "\t\t\t.cov9 { color: rgb(32, 224, 152) }"
    ∷ codes "\t\t\t.cov10 { color: rgb(20, 236, 155) }"
    ∷ codes "\t\t</style>"
    ∷ codes "\t</head>"
    ∷ codes "\t<body>"
    ∷ codes "\t\t<div id=\"topbar\">"
    ∷ codes "\t\t\t<div id=\"nav\">"
    ∷ codes "\t\t\t\t<select id=\"files\">"
    ∷ [])

-- From the list of files to the first source.
unfoldable pub page_legend : Bytes
unfolding as_lines
page_legend = as_lines (
    codes "\t\t\t\t</select>"
    ∷ codes "\t\t\t</div>"
    ∷ codes "\t\t\t<div id=\"legend\">"
    ∷ codes "\t\t\t\t<span>not tracked</span>"
    ∷ codes "\t\t\t\t<span class=\"cov0\">not covered</span>"
    ∷ codes "\t\t\t\t<span class=\"cov8\">covered</span>"
    ∷ codes "\t\t\t</div>"
    ∷ codes "\t\t</div>"
    ∷ codes "\t\t<div id=\"content\">"
    ∷ [])

-- `writeFooter`
unfoldable pub page_footer : Bytes
unfolding as_lines
page_footer = as_lines (
    codes "\t</div>"
    ∷ codes "\t</body>"
    ∷ codes "\t<script>"
    ∷ codes "\t(function() {"
    ∷ codes "\t\tvar files = document.getElementById('files');"
    ∷ codes "\t\tvar visible;"
    ∷ codes "\t\tfiles.addEventListener('change', onChange, false);"
    ∷ codes "\t\tfunction select(part) {"
    ∷ codes "\t\t\tif (visible)"
    ∷ codes "\t\t\t\tvisible.style.display = 'none';"
    ∷ codes "\t\t\tvisible = document.getElementById(part);"
    ∷ codes "\t\t\tif (!visible)"
    ∷ codes "\t\t\t\treturn;"
    ∷ codes "\t\t\tfiles.value = part;"
    ∷ codes "\t\t\tvisible.style.display = 'block';"
    ∷ codes "\t\t\tlocation.hash = part;"
    ∷ codes "\t\t}"
    ∷ codes "\t\tfunction onChange() {"
    ∷ codes "\t\t\tselect(files.value);"
    ∷ codes "\t\t\twindow.scrollTo(0, 0);"
    ∷ codes "\t\t}"
    ∷ codes "\t\tif (location.hash != \"\") {"
    ∷ codes "\t\t\tselect(location.hash.substr(1));"
    ∷ codes "\t\t}"
    ∷ codes "\t\tif (!visible) {"
    ∷ codes "\t\t\tselect(\"file0\");"
    ∷ codes "\t\t}"
    ∷ codes "\t})();"
    ∷ codes "\t</script>"
    ∷ codes "</html>"
    ∷ [])

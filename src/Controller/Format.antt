-- ===== src/Controller/Format.antt =====
-- pkg/controller/reconciler.go: processor and memory in the format of Kubernetes.
use Prim.Native.String.{◌++◌ as str_append}
use intelligent_cluster_opti.Prelude.{◌/◌, ◌%◌, String, ◌&&◌, if◌then◌else◌, leb, ◌==◌}
use intelligent_cluster_opti.Prelude.Int.{ℤ, pos, negsuc}
use intelligent_cluster_opti.Prelude.Decimal.{decimal, format_int}

-- A number of millicores that is not negative is a whole number of cores, or is written with "m".
unfoldable pub format_cpu : ℤ → String
unfolding decimal format_int
format_cpu (pos n) =
    if leb 1000 n && (n % 1000 == 0) then decimal (n / 1000) else str_append (decimal n) "m"
format_cpu (negsuc n) = str_append (format_int (negsuc n)) "m"

unfoldable pub format_memory : ℤ → String
unfolding decimal format_int
format_memory (pos n) =
    if leb 1073741824 n && (n % 1073741824 == 0)
    then str_append (decimal (n / 1073741824)) "Gi"
    else if leb 1048576 n
    then str_append (decimal (n / 1048576)) "Mi"
    else if leb 1024 n
    then str_append (decimal (n / 1024)) "Ki"
    else decimal n
format_memory (negsuc n) = format_int (negsuc n)

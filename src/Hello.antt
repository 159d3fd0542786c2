-- ===== src/Hello.antt =====
-- hello-world/hello-world.c: a test program of the build.
use minlinux.Base.{codes}
use minlinux.System.{Kernel, Program, Unit0, exited, stop, syscall, ◌>>◌}
use minlinux.System.Wrappers
use minlinux.System.Print.{stdout}

-- The length of the text is `strlen("hello world!\n")`, which the compiler computes.
unfoldable pub main : Kernel → Program Unit0
main k =
    syscall k (Wrappers.write stdout (codes "hello world!\n"))
    >> (syscall k (Wrappers.exit 0) >> stop (exited 0))

-- ===== src/Shell/Texts.antt =====
-- The constant texts of src/shell.rs.
use open_kernel.Base.{◌++◌, Str}
use open_kernel.Base.Text.{codes}

abbrev pub help_text : Str
help_text =
    codes "uname       : prints system information\n"
    ++ codes "sysinfo     : shows detailed system info\n"
    ++ codes "meminfo     : displays heap memory stats\n"
    ++ codes "cpuid       : displays CPU hardware info\n"
    ++ codes "vmap        : displays per-process virtual memory spaces & page tables\n"
    ++ codes "drivers     : lists storage & graphics drivers in driver model\n"
    ++ codes "ifconfig    : displays network stack interface configuration\n"
    ++ codes "ping <ip>   : sends ICMP echo requests over network stack\n"
    ++ codes "netstat     : displays active network sockets\n"
    ++ codes "modifiers   : displays keyboard modifier states (Shift/Ctrl/Alt)\n"
    ++ codes "uptime      : shows system uptime (HH:MM:SS)\n"
    ++ codes "time        : shows current time\n"
    ++ codes "date        : shows current date\n"
    ++ codes "cd <dir>    : changes current working directory\n"
    ++ codes "pwd         : prints current working directory\n"
    ++ codes "ls [path]   : lists files and directories\n"
    ++ codes "tree        : displays directory tree\n"
    ++ codes "cat <file>  : displays content of a file\n"
    ++ codes "touch <file>: creates empty file\n"
    ++ codes "write f txt : writes text content to file\n"
    ++ codes "mkdir <dir> : creates directory\n"
    ++ codes "rm <path>   : removes file or directory\n"
    ++ codes "echo <msg>  : prints argument text\n"
    ++ codes "color <thm> : sets VGA color theme (default|matrix|amber|cyberpunk)\n"
    ++ codes "prompt <str>: changes shell prompt string\n"
    ++ codes "matrix      : displays green ASCII matrix digital rain\n"
    ++ codes "guess <num> : number guessing game (1-10)\n"
    ++ codes "calc <expr> : evaluates basic arithmetic (e.g. calc 12 + 34)\n"
    ++ codes "ps/tasks    : list running tasks\n"
    ++ codes "spawn [name]: creates new background task\n"
    ++ codes "kill <pid>  : terminates running task by PID\n"
    ++ codes "clear       : clears the screen\n"
    ++ codes "panic       : triggers kernel panic test\n"
    ++ codes "reboot      : restarts the system\n"
    ++ codes "shutdown    : powers off the system"

-- `\` at the end of a line of the source takes the spaces at the start of the next with it.
abbrev pub sysinfo_art : Str
sysinfo_art =
    codes "___   _  __   root@open_kernel\n"
    ++ codes "   / _ \\ | |/ /   ----------------\n"
    ++ codes "  | | | || ' /    OS: open_kernel 0.1.0 x86_64\n"
    ++ codes "  | |_| || . \\    Kernel: 0.1.0-baremetal\n"
    ++ codes "   \\___/ |_|\\_\\   Uptime: "

abbrev pub matrix_art : Str
matrix_art =
    codes "0 1 0 1 1 0 1 0 0 1 0 1 1 0 1\n"
    ++ codes " 1 0 1 0 0 1 0 1 1 0 1 0 0 1 0\n"
    ++ codes " 0 1 1 0 1 0 1 0 0 1 0 1 1 0 1\n"
    ++ codes " MATRIX DIGITAL RAIN INITIALIZED"
